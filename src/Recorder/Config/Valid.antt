-- ===== src/Recorder/Config/Valid.antt =====
-- What recorder/src/config/Config.cpp, Config::validate, lets through.
use gambit_record.Common.{
  ℕ, ◌≤◌, true, false, not, ◌&&◌, Option, none, literal, starts_with, arith, ◌≡◌,
}
use gambit_record.Recorder.Files.{FilePath, is_path_within}
use gambit_record.Recorder.Config.{
  Config, Error, check, outside, validate_video, validate_replay, validate_modes, validate_paths,
  validate_limits, validate,
}

-- The ranges of the numbers.
pub record IsInRange (c : Config) : Type 0 where
  pub fps : (10 ≤ c.video.fps) × (c.video.fps ≤ 240)
  pub bitrate : (500000 ≤ c.video.bitrate) × (c.video.bitrate ≤ 200000000)
  pub queue_frames : (2 ≤ c.video.queue_frames) × (c.video.queue_frames ≤ 120)
  pub seconds : (10 ≤ c.replay.seconds) × (c.replay.seconds ≤ 3600)
  pub segment_seconds : (1 ≤ c.replay.segment_seconds) × (c.replay.segment_seconds ≤ 60)
  pub archive_limit : (1 ≤ c.recording.archive_limit_gb) × (c.recording.archive_limit_gb ≤ 1024)
  pub retry_seconds : (5 ≤ c.broker.retry_seconds) × (c.broker.retry_seconds ≤ 3600)

video-none :
    (c : Config) (later : Option Error)
    → validate_video c later ≡ none
    → (outside 10 240 c.video.fps ≡ false)
      × (outside 500000 200000000 c.video.bitrate ≡ false)
      × (outside 2 120 c.video.queue_frames ≡ false)
      × (later ≡ none)
unfolding validate_video check
video-none c later h = (ground (arith, h), ground (arith, h), ground (arith, h), ground (arith, h))

replay-none :
    (c : Config) (later : Option Error)
    → validate_replay c later ≡ none
    → (outside 10 3600 c.replay.seconds ≡ false)
      × (outside 1 60 c.replay.segment_seconds ≡ false)
      × (later ≡ none)
unfolding validate_replay check
replay-none c later h = (ground (arith, h), ground (arith, h), ground (arith, h))

modes-none : (c : Config) (later : Option Error) → validate_modes c later ≡ none → later ≡ none
unfolding validate_modes check
modes-none c later h = ground (arith, h)

paths-none :
    (weakly_canonical : FilePath → Option FilePath) (allowed : FilePath) (c : Config)
    (later : Option Error)
    → validate_paths weakly_canonical allowed c later ≡ none
    → (is_path_within weakly_canonical c.replay.cache_directory allowed ≡ true)
      × (is_path_within weakly_canonical c.recording.directory allowed ≡ true)
      × (later ≡ none)
unfolding validate_paths check
paths-none weakly_canonical allowed c later h =
    (ground (arith, h), ground (arith, h), ground (arith, h))

limits-none :
    (c : Config)
    → validate_limits c ≡ none
    → (outside 1 1024 c.recording.archive_limit_gb ≡ false)
      × (outside 5 3600 c.broker.retry_seconds ≡ false)
      × ((c.broker.enabled && not (starts_with c.broker.endpoint (literal "https://"))) ≡ false)
unfolding validate_limits check
limits-none c h = (ground (arith, h), ground (arith, h), ground (arith, h))

outside-false : (low high n : ℕ) → outside low high n ≡ false → (low ≤ n) × (n ≤ high)
unfolding outside
outside-false low high n h = (ground (arith, h), ground (arith, h))

-- Config.validate throws no exception only where each number is in its range, both directories are
-- within the allowed one, and a broker that is enabled has an endpoint that starts with "https://".
pub validate-IsInRange :
    (weakly_canonical : FilePath → Option FilePath) (allowed : FilePath) (c : Config)
    → validate weakly_canonical allowed c ≡ none
    → IsInRange c
      × (is_path_within weakly_canonical c.replay.cache_directory allowed ≡ true)
      × (is_path_within weakly_canonical c.recording.directory allowed ≡ true)
      × ((c.broker.enabled && not (starts_with c.broker.endpoint (literal "https://"))) ≡ false)
unfolding validate
validate-IsInRange weakly_canonical allowed c h =
    let video = video-none c _ h in
    let replay = replay-none c _ video.3 in
    let modes = modes-none c _ replay.2 in
    let paths = paths-none weakly_canonical allowed c _ modes in
    let limits = limits-none c paths.2 in
    (
      record {
        fps = outside-false 10 240 c.video.fps video.0;
        bitrate = outside-false 500000 200000000 c.video.bitrate video.1;
        queue_frames = outside-false 2 120 c.video.queue_frames video.2;
        seconds = outside-false 10 3600 c.replay.seconds replay.0;
        segment_seconds = outside-false 1 60 c.replay.segment_seconds replay.1;
        archive_limit = outside-false 1 1024 c.recording.archive_limit_gb limits.0;
        retry_seconds = outside-false 5 3600 c.broker.retry_seconds limits.1;
      },
      paths.0,
      paths.1,
      limits.2,
    )
