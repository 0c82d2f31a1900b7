-- ===== src/Recorder/EncoderTests.antt =====
-- The theorems about the video encoder, the sound and the pipeline at concrete inputs.
use gambit_record.Common.{
  ◌==◌, true, false, List, [], ◌∷◌, none, length, Text, ◌≡◌, ◌⊎◌, ◌↔◌, arith, pos, literal, refl,
}
use gambit_record.Recorder.Media.{VideoFrame, no_stream}
use gambit_record.Recorder.States.{CaptureState, RecordingState}
use gambit_record.Recorder.Files.{FilePath}
use gambit_record.Recorder.Config.{default_config}
use gambit_record.Recorder.RecordingSession.{recording_session}
use gambit_record.Recorder.RecordingSession.Written.{fine}
use gambit_record.Recorder.ReplayBuffer.{replay_buffer, stop as stop_replay}
use gambit_record.Recorder.UploadQueue.{upload_queue}
use gambit_record.Recorder.BrokerUploader.Channel.{throws}
use gambit_record.Recorder.BrokerUploader.{open_fails}
use gambit_record.Recorder.Nal.{contains_idr}
use gambit_record.Recorder.Nal.Found.{StartCode, LengthUnit, contains_idr_iff}
use gambit_record.Recorder.Transform.{
  Activation, Machine, accepted, refused, new_encoder, enumerate, insert, rank, first_active,
  teardown, create_transform, hardware_of, activated, streaming, configure,
}
use gambit_record.Recorder.VideoEncoder.{
  Run, at, need_more, sample, encode, attempt, configured_for, needs_configure, drain, drain_events,
  drain_output, drain_transform, produce, emit, wait, offered, stop, stop_transform,
}
use gambit_record.Recorder.VideoEncoder.Success.{Encoded, asked, encode-Encoded}
use gambit_record.Recorder.VideoEncoder.Recovery.{encode_after_failure}
use gambit_record.Recorder.AudioCapture.{audio_capture}
use gambit_record.Recorder.Application.Commands.{
  Application, replay_stop, reply, collect_save_result,
}
use gambit_record.Recorder.Application.Requests.{Request, text, scalar, text_or}
use gambit_record.Recorder.Application.Dispatch.{
  status, World, command_of, collected, handle_command, on_name, on_command,
}
use gambit_record.Recorder.Application.Refused.{handle_command-refused}
use gambit_record.Recorder.Pipeline.{
  Pipeline, Script, Surroundings, encoded, failed, recover_pipeline, recreated, silenced,
  stopped_encoder,
}
use gambit_record.Grecord.Window.{Form, reload, page_status}
use gambit_record.Grecord.Window.Saving.{saved, reload-saved}
use gambit_record.Recorder.Pipeline.Clock.{Ticks, clock, labels_of, rounds, rounds-Ticks}
use gambit_record.Recorder.Pipeline.Recovery.{Recovered, failed-Recovered}

contains_idr_iff_example :
    (contains_idr (0 ∷ 0 ∷ 1 ∷ 0x65 ∷ 0 ∷ []) ≡ true)
    ↔ (StartCode (0 ∷ 0 ∷ 1 ∷ 0x65 ∷ 0 ∷ []) ⊎ LengthUnit (0 ∷ 0 ∷ 1 ∷ 0x65 ∷ 0 ∷ []))
contains_idr_iff_example = contains_idr_iff (0 ∷ 0 ∷ 1 ∷ 0x65 ∷ 0 ∷ [])

abbrev activation : Text → Activation
activation name = record {
  name = name;
  activates = true;
  is_async = false;
  takes_device = true;
  configures = true;
  has_stream_info = true;
  sequence_header = 7 ∷ [];
}

abbrev machine : Machine
machine = record {
  codec_api = true;
  hardware = [];
  software = activation (83 ∷ []) ∷ [];
  converts = true;
  makes = true;
  first = accepted;
  second = accepted;
}

abbrev hardware_machine : Machine
hardware_machine = record machine { hardware = activation (72 ∷ []) ∷ []; first = refused }

abbrev frame : VideoFrame
frame = record { texture = 1; width = 801; height = 600; pts = pos 166666; duration = pos 0 }

abbrev started : Run
started =
    at (new_encoder 60 16000000 true) [] (sample (pos 5) (pos 6) false (1 ∷ []) [] ∷ need_more ∷ [])

-- A keyframe is requested.
abbrev asking : Run
asking = record started { encoder = record started.encoder { force_keyframe = true } }

encode-Encoded_example :
    Encoded frame (asked machine asking.encoder) (encode machine frame asking).0.encoder
unfolding new_encoder encode attempt configured_for needs_configure configure create_transform
    hardware_of enumerate insert rank first_active activated streaming drain drain_events
    drain_output drain_transform produce emit wait offered teardown literal
encode-Encoded_example = encode-Encoded machine frame asking refl

encode_after_failure_example :
    ((encode machine frame (at (encode hardware_machine frame started).0.encoder [] [])).1 ≡ true)
    × ((encode machine frame
          (at (encode hardware_machine frame started).0.encoder [] [])).0.encoder.encoder_name
        ≡ 83 ∷ [])
unfolding new_encoder encode attempt configured_for needs_configure configure create_transform
    hardware_of enumerate insert rank first_active activated streaming drain drain_events
    drain_output drain_transform produce emit wait offered teardown literal
encode_after_failure_example =
    encode_after_failure hardware_machine machine frame frame started [] [] (activation (83 ∷ []))
      refl refl refl refl refl refl refl refl tt

abbrev records : FilePath
records = (1 ∷ []) ∷ []

abbrev application : Application
application = record {
  config = default_config;
  recording = record (recording_session records) { state = RecordingState.waiting_for_keyframe };
  replay = replay_buffer records 600 10 false;
  uploads = upload_queue default_config.broker;
  stream = no_stream;
  capture_state = CaptureState.running;
  last_encoded_frame_tick = 10;
  save_valid = false;
  task = none;
  last_save = none;
  save_generation = 0;
}

abbrev pipeline : Pipeline
pipeline = record {
  application = application;
  encoder = new_encoder 60 16000000 true;
  audio = audio_capture;
  audio_pid = 0;
  audio_failed = false;
  active_audio_mode = [];
  frames = frame ∷ [];
  dropped_frames = 0;
  last_capture_pts = pos 0;
  consecutive_failures = 2;
}

abbrev quiet : Script
quiet = record { events = []; outputs = [] }

abbrev surroundings : Surroundings
surroundings = record {
  calls = fine;
  disk = record { opens = true; accepts = 1000 };
  timestamp = [];
  tick = 20;
  machine = machine;
  resizing = quiet;
  encoding = quiet;
  recovering = quiet;
  pid = 7;
  device = record {
    activates = true;
    initializes = true;
    encodes = true;
    starts = true;
    user_data = [];
  };
  recovers = true;
}

failed-Recovered_example : Recovered (failed surroundings pipeline)
unfolding recover_pipeline recreated stopped_encoder encoded silenced stop stop_transform
    new_encoder
failed-Recovered_example = failed-Recovered surroundings pipeline (omega arith) refl

-- A frame, one too close behind it, and a third.
abbrev three : List (Surroundings × VideoFrame)
three =
    (surroundings, frame)
    ∷ (surroundings, record frame { pts = pos 170000 })
    ∷ (surroundings, record frame { pts = pos 333333 })
    ∷ []

rounds-Ticks_example :
    Ticks 60 (labels_of three pipeline) (clock pipeline) (clock (rounds three pipeline))
unfolding default_config
rounds-Ticks_example = rounds-Ticks three pipeline

abbrev world : World
world = record {
  now = 100;
  outside = record {
    calls = fine;
    has_key = true;
    id = 7 ∷ [];
    now = 100;
    equivalent = λ p q. length p == length q;
    removes = λ p. true;
    sorted = [];
  };
  config_writes = true;
  marker_writes = true;
  saved = none;
  https = λ t. true;
  opens = true;
  connects = true;
  attempt = λ n. open_fails n;
  parse_channel = λ t. throws [];
}

abbrev replay_stop_request : Request
replay_stop_request = (literal "command", scalar (text (literal "replay_stop"))) ∷ []

handle_command-refused_example :
    (handle_command world replay_stop_request pipeline).0 ≡ collected world pipeline
unfolding text_or command_of literal handle_command on_name on_command replay_stop stop_replay
    replay_buffer reply collect_save_result
handle_command-refused_example =
    handle_command-refused world replay_stop_request pipeline (literal "replay_stop") refl refl refl

abbrev form : Form
form = record { youtube = false; audio_source = 2; archive = 50; dirty = true }

reload-saved_example :
    (reload (page_status (status world (saved world form pipeline)))
      ≡ record { youtube = false; audio_source = 2; archive = 20; dirty = false })
    × ((saved world form pipeline).application.config.recording.archive_limit_gb ≡ 50)
reload-saved_example = reload-saved world form pipeline (omega arith)
