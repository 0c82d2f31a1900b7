-- ===== src/Recorder/UploadQueue.antt =====
-- recorder/src/broker/UploadQueue.cpp and UploadQueue.hpp. Each method holds the mutex throughout;
-- the upload itself is between `pick` and `finish`. The clock and the file system are parameters. The
-- state file is not modelled.
pub mod Eviction
pub mod Retry
use gambit_record.Common.{
  ℕ, zero, suc, ◌+◌, ◌-◌, ◌*◌, ◌/◌, ◌^◌, min, Bool, true, false, not, ◌&&◌, ◌||◌, List, [], ◌∷◌,
  ◌++◌, Option, none, some, ltb, leb, if◌then◌else◌, length, Text, literal, is_empty, same_text,
}
use gambit_record.Recorder.Media.{EvidenceMetadata}
use gambit_record.Recorder.Files.{FilePath}
use gambit_record.Recorder.BrokerUploader.{UploadResult}
use gambit_record.Recorder.Config.{Broker}

-- The clock counts seconds from 1970 on, and is not negative.
pub record Job : Type 0 where
  pub id : Text
  pub path : FilePath
  pub metadata : EvidenceMetadata
  pub attempts : ℕ
  pub next_attempt : ℕ
  pub upload_id : Text

-- `uploading` is what the loop of `run` has taken: its copies of a job and of the settings.
pub record UploadQueue : Type 0 where
  pub settings : Broker
  pub jobs : List Job
  pub last : Option UploadResult
  pub last_metadata : Option EvidenceMetadata
  pub active_id : Text
  pub active_phase : Text
  pub sent : ℕ
  pub total : ℕ
  pub uploading : Option (Job × Broker)

unfoldable pub upload_queue : Broker → UploadQueue
upload_queue settings = record {
  settings = settings;
  jobs = [];
  last = none;
  last_metadata = none;
  active_id = [];
  active_phase = [];
  sent = 0;
  total = 0;
  uploading = none;
}

-- The jobs of the state file that have an id and a path.
unfoldable pub usable : List Job → List Job
usable [] = []
usable (j ∷ rest) =
    if not (is_empty j.id) && not (is_empty j.path) then j ∷ usable rest else usable rest

unfoldable pub load : List Job → UploadQueue → UploadQueue
load stored st = record st { jobs = usable stored }

unfoldable pub enqueue : Text → ℕ → FilePath → EvidenceMetadata → UploadQueue → UploadQueue
enqueue id now path metadata st = record st {
  jobs =
      st.jobs
      ++ record {
        id = id;
        path = path;
        metadata = metadata;
        attempts = 0;
        next_attempt = now;
        upload_id = [];
      }
        ∷ [];
}

unfoldable pub configure : Broker → UploadQueue → UploadQueue
configure settings st = record st { settings = settings }

unfoldable pub find_due : ℕ → List Job → Option Job
find_due now [] = none
find_due now (j ∷ rest) = if leb j.next_attempt now then some j else find_due now rest

-- The size of the recording, 0 where it cannot be read.
unfoldable pub take_job : (FilePath → Option ℕ) → UploadQueue → Option Job → UploadQueue
unfolding literal
take_job file_size st none = st
take_job file_size st (some j) = record st {
  active_id = j.id;
  active_phase = literal "preparing";
  sent = 0;
  total = elim (file_size j.path) [ none ↦ 0 | some n ↦ n ];
  uploading = some (j, st.settings);
}

-- The first locked block of a round of `run`, which finds no upload under way.
unfoldable pub pick : (FilePath → Option ℕ) → ℕ → UploadQueue → UploadQueue
pick file_size now st = take_job file_size st (find_due now st.jobs)

unfoldable pub progress : ℕ → ℕ → UploadQueue → UploadQueue
unfolding literal
progress sent total st = record st {
  sent = sent;
  total = total;
  active_phase = literal "uploading";
}

unfoldable pub backoff : Broker → ℕ → ℕ
backoff settings attempts = min 3600 (settings.retry_seconds * 2 ^ min attempts 6)

-- What becomes of the job whose upload has ended.
unfoldable pub settle : UploadResult → Broker → ℕ → Job → List Job → List Job
settle result settings now j rest =
    if result.success
    then rest
    else if not result.retryable
    then rest
    else if leb 7 j.attempts
    then rest
    else record j {
      upload_id = result.upload_id;
      attempts = j.attempts + 1;
      next_attempt = now + backoff settings (j.attempts + 1);
    }
      ∷ rest

-- The first job with the id.
unfoldable pub settle_at : Text → UploadResult → Broker → ℕ → List Job → List Job
settle_at id result settings now [] = []
settle_at id result settings now (j ∷ rest) =
    let later = settle_at id result settings now rest in
    if same_text j.id id then settle result settings now j rest else j ∷ later

-- The last locked block of a round.
unfoldable pub settle_taken : UploadResult → ℕ → UploadQueue → Option (Job × Broker) → UploadQueue
settle_taken result now st none = st
settle_taken result now st (some taken) = record st {
  last = some result;
  last_metadata = some taken.0.metadata;
  active_id = [];
  active_phase = [];
  jobs = settle_at taken.0.id result taken.1 now st.jobs;
  uploading = none;
}

unfoldable pub finish : UploadResult → ℕ → UploadQueue → UploadQueue
finish result now st = settle_taken result now st st.uploading

pub record Status : Type 0 where
  pub in_progress : Bool
  pub pending : ℕ
  pub percent : ℕ

-- The numbers of `status`. The subtraction is unsigned in the source and stops at 0 here.
unfoldable pub status : UploadQueue → Status
status st =
    let active = not (is_empty st.active_id) in
    record {
      in_progress = active;
      pending = length st.jobs - (if active then 1 else 0);
      percent = elim st.total [ zero ↦ 0 | suc n ↦ st.sent * 100 / suc n ];
    }

-- `enforce_archive_limit`, from the sorted list of the recordings on.
pub record File : Type 0 where
  pub path : FilePath
  pub size : ℕ

-- `equivalent` and whether `remove` succeeds are parameters; an empty `keep` protects nothing.
unfoldable pub is_used : (FilePath → FilePath → Bool) → FilePath → List Job → Bool
is_used equivalent path [] = false
is_used equivalent path (j ∷ rest) = equivalent path j.path || is_used equivalent path rest

unfoldable pub is_protected : (FilePath → FilePath → Bool) → FilePath → List Job → FilePath → Bool
is_protected equivalent keep jobs path =
    (not (is_empty keep) && equivalent path keep) || is_used equivalent path jobs

pub record Archive : Type 0 where
  pub kept : List File
  pub removed : List File
  pub total_size : ℕ

unfoldable pub keep_file : File → Archive → Archive
keep_file f a = record a { kept = f ∷ a.kept }

unfoldable pub remove_file : File → Archive → Archive
remove_file f a = record a { removed = f ∷ a.removed }

-- The loop over the files, oldest first.
unfoldable pub evict_files : ℕ → (FilePath → Bool) → (FilePath → Bool) → List File → ℕ → Archive
unfolding keep_file remove_file
evict_files limit protected removes [] total = record {
  kept = [];
  removed = [];
  total_size = total;
}
evict_files limit protected removes (f ∷ rest) total =
    let skipped = evict_files limit protected removes rest total in
    let freed = evict_files limit protected removes rest (total - f.size) in
    if leb total limit
    then record { kept = f ∷ rest; removed = []; total_size = total }
    else if protected f.path
    then keep_file f skipped
    else if removes f.path
    then remove_file f freed
    else keep_file f skipped

unfoldable pub sum_of : List File → ℕ
sum_of [] = 0
sum_of (f ∷ rest) = f.size + sum_of rest

unfoldable pub enforce_archive_limit :
    (FilePath → FilePath → Bool)
    → (FilePath → Bool)
    → List File
    → ℕ
    → FilePath
    → UploadQueue
    → Archive
enforce_archive_limit equivalent removes sorted limit keep st =
    evict_files limit (is_protected equivalent keep st.jobs) removes sorted (sum_of sorted)
