-- ===== src/Recorder/UploadQueue/Retry.antt =====
-- The jobs of recorder/src/broker/UploadQueue.cpp in any sequence of calls.
use gambit_record.Common.{
  ℕ, ◌+◌, ◌-◌, ◌≤◌, Bool, true, false, not, ◌||◌, List, [], ◌∷◌, ◌++◌, Option, none, some, leb,
  if◌then◌else◌, length, Text, is_empty, same_text, same_text_refl, arith, All, ◌≡◌, refl,
}
use gambit_record.Recorder.Media.{EvidenceMetadata}
use gambit_record.Recorder.Files.{FilePath}
use gambit_record.Recorder.BrokerUploader.{UploadResult}
use gambit_record.Recorder.Config.{Broker}
use gambit_record.Recorder.UploadQueue.{
  Job, UploadQueue, upload_queue, usable, load, enqueue, configure, find_due, take_job, pick,
  progress, settle, settle_at, settle_taken, finish, status,
}

pub data Event : Type 0 where
  enqueue_event : Text → ℕ → FilePath → EvidenceMetadata → Event
  configure_event : Broker → Event
  pick_event : (FilePath → Option ℕ) → ℕ → Event
  progress_event : ℕ → ℕ → Event
  finish_event : UploadResult → ℕ → Event

-- One thread uploads: it takes a job only when it has none.
abbrev pub pick_if_idle :
    (FilePath → Option ℕ) → ℕ → UploadQueue → Option (Job × Broker) → UploadQueue
pick_if_idle file_size now st none = pick file_size now st
pick_if_idle file_size now st (some taken) = st

abbrev pub step : Event → UploadQueue → UploadQueue
step (enqueue_event id now path m) st = enqueue id now path m st
step (configure_event settings) st = configure settings st
step (pick_event file_size now) st = pick_if_idle file_size now st st.uploading
step (progress_event sent total) st = progress sent total st
step (finish_event result now) st = finish result now st

abbrev pub run : List Event → UploadQueue → UploadQueue
run [] st = st
run (e ∷ events) st = run events (step e st)

has_id : Text → List Job → Bool
has_id id [] = false
has_id id (j ∷ rest) = same_text j.id id || has_id id rest

-- What is under way is the active job, and it is in the queue.
Active : Text → List Job → Option (Job × Broker) → Type 0
Active active_id jobs none = active_id ≡ []
Active active_id jobs (some taken) = (active_id ≡ taken.0.id) × (has_id taken.0.id jobs ≡ true)

abbrev pub FewAttempts : List Job → Type 0
FewAttempts = All (λ j. j.attempts ≤ 7)

record IsQueue (st : UploadQueue) : Type 0 where
  few : FewAttempts st.jobs
  active : Active st.active_id st.jobs st.uploading

few-append :
    (xs : List Job) (j : Job) → FewAttempts xs → j.attempts ≤ 7 → FewAttempts (xs ++ j ∷ [])
few-append [] j h k = (k, tt)
few-append (x ∷ xs) j h k = (h.0, few-append xs j h.1 k)

has_id-append : (id : Text) (xs ys : List Job) → has_id id xs ≡ true → has_id id (xs ++ ys) ≡ true
unfolding has_id
has_id-append id [] ys h = absurd (ground (arith, h))
has_id-append id (x ∷ xs) ys h = ground (arith, h, has_id-append id xs ys)

Active-append :
    (active_id : Text) (xs ys : List Job) (o : Option (Job × Broker))
    → Active active_id xs o
    → Active active_id (xs ++ ys) o
unfolding Active
Active-append active_id xs ys none h = h
Active-append active_id xs ys (some taken) h = (h.0, has_id-append taken.0.id xs ys h.1)

data Due (jobs : List Job) : Option Job → Type 0 where
  not_due : Due jobs none
  due : (j : Job) → has_id j.id jobs ≡ true → Due jobs (some j)

find_due-Due : (now : ℕ) (jobs : List Job) → Due jobs (find_due now jobs)
unfolding find_due has_id
find_due-Due now [] = not_due
find_due-Due now (j ∷ rest) =
    choose (leb j.next_attempt now) (find_due now rest) (find_due-Due now rest)
  where
    choose : (b : Bool) (o : Option Job) → Due rest o → Due (j ∷ rest) (if b then some j else o)
    choose true o d = due j (ground (arith, same_text_refl j.id))
    choose false none d = not_due
    choose false (some k) (due _ h) = due k (ground (arith, h))

pick-IsQueue :
    (file_size : FilePath → Option ℕ) (st : UploadQueue) (o : Option Job)
    → IsQueue st
    → Due st.jobs o
    → IsQueue (take_job file_size st o)
unfolding take_job Active
pick-IsQueue file_size st none q d = q
pick-IsQueue file_size st (some j) q (due _ h) = record { few = q.few; active = (refl, h) }

settle-few :
    (result : UploadResult) (settings : Broker) (now : ℕ) (j : Job) (rest : List Job)
    → FewAttempts rest
    → FewAttempts (settle result settings now j rest)
unfolding settle
settle-few result settings now j rest h = ground (arith, h)

settle_at-few :
    (id : Text) (result : UploadResult) (settings : Broker) (now : ℕ) (jobs : List Job)
    → FewAttempts jobs
    → FewAttempts (settle_at id result settings now jobs)
unfolding settle_at
settle_at-few id result settings now [] h = tt
settle_at-few id result settings now (j ∷ rest) h =
    choose (same_text j.id id) (settle_at-few id result settings now rest h.1)
  where
    choose :
        (b : Bool)
        → FewAttempts (settle_at id result settings now rest)
        → FewAttempts (
            if b
            then settle result settings now j rest
            else j ∷ settle_at id result settings now rest)
    choose true later = settle-few result settings now j rest h.1
    choose false later = (h.0, later)

finish-IsQueue :
    (result : UploadResult) (now : ℕ) (st : UploadQueue) (o : Option (Job × Broker))
    → IsQueue st
    → IsQueue (settle_taken result now st o)
unfolding settle_taken Active
finish-IsQueue result now st none q = q
finish-IsQueue result now st (some taken) q = record {
  few = settle_at-few taken.0.id result taken.1 now st.jobs q.few;
  active = refl;
}

idle-IsQueue :
    (file_size : FilePath → Option ℕ) (now : ℕ) (st : UploadQueue) (o : Option (Job × Broker))
    → IsQueue st
    → IsQueue (pick_if_idle file_size now st o)
unfolding pick
idle-IsQueue file_size now st none q = pick-IsQueue file_size st _ q (find_due-Due now st.jobs)
idle-IsQueue file_size now st (some taken) q = q

step-IsQueue : (e : Event) (st : UploadQueue) → IsQueue st → IsQueue (step e st)
unfolding enqueue configure progress finish
step-IsQueue (enqueue_event id now path m) st q = record {
  few = few-append st.jobs _ q.few (omega arith);
  active = Active-append st.active_id st.jobs _ st.uploading q.active;
}
step-IsQueue (configure_event settings) st q = record { few = q.few; active = q.active }
step-IsQueue (pick_event file_size now) st q = idle-IsQueue file_size now st st.uploading q
step-IsQueue (progress_event sent total) st q = record { few = q.few; active = q.active }
step-IsQueue (finish_event result now) st q = finish-IsQueue result now st st.uploading q

run-keeps : (events : List Event) (st : UploadQueue) → IsQueue st → IsQueue (run events st)
run-keeps [] st q = q
run-keeps (e ∷ events) st q = run-keeps events (step e st) (step-IsQueue e st q)

usable-few : (jobs : List Job) → FewAttempts jobs → FewAttempts (usable jobs)
unfolding usable
usable-few [] h = tt
usable-few (j ∷ rest) h = ground (arith, h.0, usable-few rest h.1)

has_id-length : (id : Text) (jobs : List Job) → has_id id jobs ≡ true → 1 ≤ length jobs
unfolding has_id
has_id-length id [] h = absurd (ground (arith, h))
has_id-length id (j ∷ rest) h = omega arith

Active-length :
    (active_id : Text) (jobs : List Job) (o : Option (Job × Broker))
    → Active active_id jobs o
    → is_empty active_id ≡ false
    → 1 ≤ length jobs
unfolding Active
Active-length active_id jobs none h e = absurd (ground (arith, h, e))
Active-length active_id jobs (some taken) h e = has_id-length taken.0.id jobs h.1

-- What the status says adds up: the pending jobs and the one under way are all jobs.
abbrev pub in_all : UploadQueue → ℕ
in_all st = (status st).pending + (if (status st).in_progress then 1 else 0)

status-in_all : (st : UploadQueue) → IsQueue st → in_all st ≡ length st.jobs
unfolding status
status-in_all st q =
    let some_job = Active-length st.active_id st.jobs st.uploading q.active in
    choose (is_empty st.active_id) some_job
  where
    choose :
        (b : Bool)
        → (b ≡ false → 1 ≤ length st.jobs)
        → (length st.jobs - (if not b then 1 else 0)) + (if not b then 1 else 0) ≡ length st.jobs
    choose true h = omega arith
    choose false h = omega (arith, h refl)

-- After any calls on a queue that has loaded stored jobs of at most 7 attempts each, every job has
-- had at most 7 attempts, and the pending jobs of the status and the one under way add up to all
-- jobs: the subtraction in the status does not wrap around.
pub run-in_all :
    (settings : Broker) (stored : List Job) (events : List Event)
    → FewAttempts stored
    → FewAttempts (run events (load stored (upload_queue settings))).jobs
      × (in_all (run events (load stored (upload_queue settings)))
          ≡ length (run events (load stored (upload_queue settings))).jobs)
unfolding load upload_queue Active
run-in_all settings stored events h =
    let q =
      run-keeps events (load stored (upload_queue settings))
        (record { few = usable-few stored h; active = refl }) in
    (q.few, status-in_all _ q)
