-- ===== src/Recorder/Config/Saved.antt =====
-- The round trip of recorder/src/config/Config.cpp: save, then load_or_create.
use gambit_record.Common.{Option, some, Text, literal, ◌≡◌, ap, sym, ◌∙◌}
use gambit_record.Recorder.Files.{FilePath}
use gambit_record.Recorder.Config.{Config}
use gambit_record.Recorder.Config.File.{
  in_group, lookup, number_or, flag_or, text_or, path_or, load_capture, load_video, load_audio,
  load_broker, load_recording, load_replay, load_logging, load, save,
}

-- Reading what `save` has written of a configuration gives it back, where the process is the game's
-- and no path changes when it becomes a text and a path again.
pub load-save :
    (path_of : Text → FilePath) (path_utf8 : FilePath → Text) (c : Config)
    → ((p : FilePath) → path_of (path_utf8 p) ≡ p)
    → c.capture.process ≡ literal "gta_sa.exe"
    → load path_of path_utf8 (save path_utf8 c) ≡ some c
unfolding load save load_capture load_video load_audio load_broker load_recording load_replay
    load_logging lookup in_group number_or flag_or text_or path_or literal
load-save path_of path_utf8 c inverse process =
    ap
      (λ t.
        rebuilt t (path_of (path_utf8 c.recording.directory))
          (path_of (path_utf8 c.replay.cache_directory)) (path_of (path_utf8 c.logging.directory)))
      (sym process)
    ∙ ap
        (λ d.
          rebuilt c.capture.process d (path_of (path_utf8 c.replay.cache_directory))
            (path_of (path_utf8 c.logging.directory)))
        (inverse c.recording.directory)
    ∙ ap
        (λ d.
          rebuilt c.capture.process c.recording.directory d
            (path_of (path_utf8 c.logging.directory)))
        (inverse c.replay.cache_directory)
    ∙ ap (rebuilt c.capture.process c.recording.directory c.replay.cache_directory)
        (inverse c.logging.directory)
  where
    rebuilt : Text → FilePath → FilePath → FilePath → Option Config
    rebuilt process directory cache_directory log_directory = some (record c {
      capture = record c.capture { process = process };
      recording = record c.recording { directory = directory };
      replay = record c.replay { cache_directory = cache_directory };
      logging = record c.logging { directory = log_directory };
    })
