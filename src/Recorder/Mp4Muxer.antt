-- ===== src/Recorder/Mp4Muxer.antt =====
-- recorder/src/recording/Mp4Muxer.cpp and Mp4Muxer.hpp. The Media Foundation sink writer is a
-- parameter: whether its calls succeed. The samples it was given are kept in order. A sample has
-- bytes here: the source reads them through the pointer with no test.
use gambit_record.Common.{Bool, true, false, not, ◌||◌, List, [], ◌∷◌, ◌++◌, ◌==◌, if◌then◌else◌}
use gambit_record.Recorder.Media.{EncodedSample, StreamDescription, video}

pub record Mp4Muxer : Type 0 where
  pub writer : Bool
  pub audio_stream : Bool
  pub finalized : Bool
  pub written : List EncodedSample

abbrev pub new_muxer : Mp4Muxer
new_muxer = record { writer = false; audio_stream = false; finalized = true; written = [] }

-- What the calls of Media Foundation during one call here return: up to the sink writer's creation,
-- from there to `BeginWriting`, for one sample, and `Finalize`.
pub record Calls : Type 0 where
  pub creates : Bool
  pub begins : Bool
  pub writes : Bool
  pub finalizes : Bool

-- A muxer, and whether the call threw.
pub record Muxed : Type 0 where
  pub muxer : Mp4Muxer
  pub threw : Bool

unfoldable pub open_file : Calls → StreamDescription → Mp4Muxer → Muxed
open_file calls description m =
    if m.writer
    then record { muxer = m; threw = true }
    else if not calls.creates
    then record { muxer = m; threw = true }
    else if not calls.begins
    then record {
      muxer = record m { writer = true; audio_stream = description.has_audio };
      threw = true;
    }
    else record {
      muxer = record m { writer = true; audio_stream = description.has_audio; finalized = false };
      threw = false;
    }

-- A sample of a track that has no stream is left out.
unfoldable pub write : Calls → EncodedSample → Mp4Muxer → Muxed
write calls sample m =
    if not m.writer || m.finalized
    then record { muxer = m; threw = true }
    else if not calls.writes
    then record { muxer = m; threw = true }
    else record {
      muxer = record m {
        written =
            if (sample.track == video) || m.audio_stream
            then m.written ++ sample ∷ []
            else m.written;
      };
      threw = false;
    }

unfoldable pub finalize : Calls → Mp4Muxer → Muxed
finalize calls m =
    if not m.writer || m.finalized then record { muxer = m; threw = false } else record {
      muxer = record m { finalized = true; writer = not calls.finalizes };
      threw = not calls.finalizes;
    }
