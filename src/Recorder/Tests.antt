-- ===== src/Recorder/Tests.antt =====
-- The theorems about the files, the configuration, the queues and the broker at concrete inputs.
use gambit_record.Common.{
  ℕ, zero, suc, take, drop, ap, ap₂, ◌∙◌, length-append, ◌+◌, ◌≤◌, ◌==◌, Bool, true, false, ◌&&◌,
  not, ◌≡◌, ◌≢◌, ◌↔◌, refl, List, [], ◌∷◌, ◌++◌, Option, none, some, length, Text, literal, All,
  arith, if◌then◌else◌, starts_with,
}
use gambit_record.Recorder.Media.{no_metadata}
use gambit_record.Recorder.Files.{FilePath, is_path_within, sanitize_filename}
use gambit_record.Recorder.Files.Names.{IsNameByte, sanitize_filename-IsName}
use gambit_record.Recorder.Files.Within.{is_path_within_iff}
use gambit_record.Recorder.BoundedQueue.Order.{
  push, take_one, empty_out, idle_flow, IsFlow, run as run_calls, run-IsFlow,
}
use gambit_record.Recorder.Config.{
  Config, default_config, validate, validate_video, validate_replay, validate_modes, validate_paths,
  validate_limits, check,
}
use gambit_record.Recorder.Config.Valid.{IsInRange, validate-IsInRange}
use gambit_record.Recorder.Config.File.{load, save}
use gambit_record.Recorder.Config.Saved.{load-save}
use gambit_record.Recorder.BrokerUploader.{
  Response, Request, Environment, Upload, resume_upload, create_upload, put_chunk, upload_sized,
  next_offset,
}
use gambit_record.Recorder.BrokerUploader.Chunks.{Advances, upload_sized-ends}
use gambit_record.Recorder.UploadQueue.{
  Job, File, upload_queue, load as load_jobs, is_protected, enforce_archive_limit,
}
use gambit_record.Recorder.UploadQueue.Eviction.{IsEvicted, enforce_archive_limit-IsEvicted}
use gambit_record.Recorder.UploadQueue.Retry.{
  enqueue_event, pick_event, run as run_queue, in_all, FewAttempts, run-in_all,
}

sanitize_filename-IsName_example :
    All IsNameByte (sanitize_filename (literal "a:b. "))
    × (1 ≤ length (sanitize_filename (literal "a:b. ")))
    × (length (sanitize_filename (literal "a:b. ")) ≤ 80)
sanitize_filename-IsName_example = sanitize_filename-IsName (literal "a:b. ")

abbrev canonical : FilePath → Option FilePath
canonical p = some p

abbrev allowed : FilePath
allowed = (1 ∷ []) ∷ []

abbrev inside : FilePath
inside = (1 ∷ []) ∷ (2 ∷ []) ∷ []

is_path_within_iff_example :
    (is_path_within canonical inside allowed ≡ true)
    ↔ ((rest : FilePath) × (inside ≡ allowed ++ rest))
is_path_within_iff_example = is_path_within_iff canonical inside allowed inside allowed refl refl

run-IsFlow_example :
    IsFlow {T = ℕ}
      (run_calls (push 1 ∷ push 2 ∷ push 3 ∷ take_one false ∷ empty_out ∷ []) (idle_flow 2))
run-IsFlow_example =
    run-IsFlow 2 (push 1 ∷ push 2 ∷ push 3 ∷ take_one false ∷ empty_out ∷ []) (omega arith)

abbrev short_config : Config
unfolding default_config literal
short_config = record default_config {
  recording = record { directory = inside; archive_limit_gb = 20 };
  replay = record {
    enabled = true;
    auto_start = true;
    seconds = 600;
    storage = literal "disk";
    cache_directory = inside;
    segment_seconds = 10;
  };
}

valid_config : validate canonical allowed short_config ≡ none
unfolding validate validate_video validate_replay validate_modes validate_paths validate_limits
    check is_path_within default_config literal
valid_config = refl

validate-IsInRange_example :
    IsInRange short_config
    × (is_path_within canonical short_config.replay.cache_directory allowed ≡ true)
    × (is_path_within canonical short_config.recording.directory allowed ≡ true)
    × ((short_config.broker.enabled
          && not (starts_with short_config.broker.endpoint (literal "https://")))
        ≡ false)
validate-IsInRange_example = validate-IsInRange canonical allowed short_config valid_config

-- The broker takes up the upload, wants more after each chunk, and ends it at the file's end.
abbrev answer : ℕ → Response
answer status = record { status = status; body = []; network_error = 0; operation = none }

abbrev chunk_answer : ℕ → ℕ → Response
chunk_answer end total = if end == total then answer 201 else answer 308

abbrev broker_answers : List Request → Request → Response
broker_answers past (resume_upload id) = answer 200
broker_answers past (create_upload size title description hash) = answer 500
broker_answers past (put_chunk id offset count size) = chunk_answer (offset + count) size

abbrev environment : Environment
environment = record {
  has_key = true;
  file_size = some 3000000;
  has_endpoint = true;
  has_session = true;
  has_connection = true;
  hash = [];
  broker = broker_answers;
  json_string = λ body key. [];
  stoull = λ t. none;
  stops = λ past. false;
  reads = λ past. true;
}

environment-Advances : Advances environment 3000000
unfolding next_offset
environment-Advances requests id offset h k = omega arith

upload_sized-ends_example : upload_sized environment no_metadata (1 ∷ []) 3000000 3000000 ≢ none
upload_sized-ends_example =
    upload_sized-ends environment no_metadata (1 ∷ []) 3000000 3000000 environment-Advances
      (omega arith)

abbrev no_key : Environment
no_key = record environment { file_size = some 5 }

abbrev chunk_upload : Upload
chunk_upload = record {
  requests = resume_upload (1 ∷ []) ∷ put_chunk (1 ∷ []) 0 5 5 ∷ [];
  result = record {
    success = false;
    retryable = false;
    upload_id = 1 ∷ [];
    video_id = [];
    url = [];
    error = literal "broker returned no video URL";
  };
}

abbrev same_path : FilePath → FilePath → Bool
same_path p q = length p == length q

abbrev old_files : List File
old_files = record { path = inside; size = 70 } ∷ record { path = allowed; size = 50 } ∷ []

enforce_archive_limit-IsEvicted_example :
    IsEvicted 100
      (is_protected same_path allowed (upload_queue default_config.broker).jobs)
      (λ p. true)
      old_files
      0
      (enforce_archive_limit same_path
        (λ p. true)
        old_files
        100
        allowed
        (upload_queue default_config.broker))
enforce_archive_limit-IsEvicted_example =
    enforce_archive_limit-IsEvicted same_path (λ p. true) old_files 100 allowed
      (upload_queue default_config.broker)

abbrev stored_job : Job
stored_job = record {
  id = 1 ∷ [];
  path = inside;
  metadata = no_metadata;
  attempts = 3;
  next_attempt = 10;
  upload_id = [];
}

run-in_all_example :
    FewAttempts
      (run_queue
        (enqueue_event (2 ∷ []) 20 allowed no_metadata ∷ pick_event (λ p. none) 15 ∷ [])
        (load_jobs (stored_job ∷ []) (upload_queue default_config.broker))).jobs
    × (in_all (
          run_queue
            (enqueue_event (2 ∷ []) 20 allowed no_metadata ∷ pick_event (λ p. none) 15 ∷ [])
            (load_jobs (stored_job ∷ []) (upload_queue default_config.broker)))
        ≡ length
            (run_queue
              (enqueue_event (2 ∷ []) 20 allowed no_metadata ∷ pick_event (λ p. none) 15 ∷ [])
              (load_jobs (stored_job ∷ []) (upload_queue default_config.broker))).jobs)
run-in_all_example =
    run-in_all default_config.broker (stored_job ∷ [])
      (enqueue_event (2 ∷ []) 20 allowed no_metadata ∷ pick_event (λ p. none) 15 ∷ [])
      (omega arith, tt)

-- A path's text is its components, each behind its length.
abbrev joined : FilePath → Text
joined [] = []
joined (c ∷ p) = length c ∷ (c ++ joined p)

abbrev parts : ℕ → Text → FilePath
parts zero t = []
parts (suc fuel) [] = []
parts (suc fuel) (n ∷ t) = take n t ∷ parts fuel (drop n t)

abbrev separated : Text → FilePath
separated t = parts (length t) t

take-own : (c t : Text) → take (length c) (c ++ t) ≡ c
take-own [] t = refl
take-own (x ∷ c) t = ap (◌∷◌ x) (take-own c t)

drop-own : (c t : Text) → drop (length c) (c ++ t) ≡ t
drop-own [] t = refl
drop-own (x ∷ c) t = drop-own c t

parts-joined : (fuel : ℕ) (p : FilePath) → length (joined p) ≤ fuel → parts fuel (joined p) ≡ p
parts-joined zero [] h = refl
parts-joined zero (c ∷ p) h = absurd (omega arith)
parts-joined (suc fuel) [] h = refl
parts-joined (suc fuel) (c ∷ p) h = ap₂ ◌∷◌ (take-own c (joined p)) (
    ap (parts fuel) (drop-own c (joined p))
    ∙ parts-joined fuel p (omega (arith, length-append {0} c (joined p))))

separated-joined : (p : FilePath) → separated (joined p) ≡ p
separated-joined p = parts-joined (length (joined p)) p (omega arith)

game_process : default_config.capture.process ≡ literal "gta_sa.exe"
unfolding default_config
game_process = refl

load-save_example : load separated joined (save joined default_config) ≡ some default_config
load-save_example = load-save separated joined default_config separated-joined game_process
