-- ===== src/Recorder/Application/Stop.antt =====
-- What stopping a recording does to the archive: recorder/src/app/Application.cpp.
use gambit_record.Common.{
  Bool, true, false, List, [], ◌∷◌, Option, none, some, if◌then◌else◌, literal, is_empty, arith,
  All, ◌≡◌, refl, subst, sym,
}
use gambit_record.Recorder.Media.{EvidenceMetadata}
use gambit_record.Recorder.Files.{FilePath}
use gambit_record.Recorder.States.{is_stopped}
use gambit_record.Recorder.RecordingSession.{RecordingSession, stop}
use gambit_record.Recorder.UploadQueue.{
  UploadQueue, Job, File, Archive, is_used, is_protected, enforce_archive_limit,
}
use gambit_record.Recorder.UploadQueue.Eviction.{enforce_archive_limit-IsEvicted}
use gambit_record.Recorder.Application.Commands.{
  Application, Outside, Stopped, gibibytes, reply, stopped_at, record_stop,
}

abbrev pub removed_of : Option Archive → List File
removed_of none = []
removed_of (some archive) = archive.removed

All-map {ℓ κ} :
    {A : Type ℓ} {P Q : A → Type κ} (xs : List A) → ((x : A) → P x → Q x) → All P xs → All Q xs
All-map [] f h = tt
All-map (x ∷ xs) f h = (f x h.0, All-map xs f h.1)

free-parts :
    (equivalent : FilePath → FilePath → Bool) (keep : FilePath) (jobs : List Job) (path : FilePath)
    → is_empty keep ≡ false
    → is_protected equivalent keep jobs path ≡ false
    → (equivalent path keep ≡ false) × (is_used equivalent path jobs ≡ false)
unfolding is_protected
free-parts equivalent keep jobs path e h = (ground (arith, e, h), ground (arith, e, h))

-- The files that a stopped recording had removed are none of these.
abbrev pub Spares : Outside → Stopped → Type 0
Spares o s =
    All
      (λ f.
        (o.equivalent f.path s.answer.path ≡ false)
        × (is_used o.equivalent f.path s.application.uploads.jobs ≡ false))
      (removed_of s.archive)

stopped_at-Spares :
    (o : Outside) (u : Bool) (m : EvidenceMetadata) (a : Application) (path : FilePath) (b : Bool)
    → is_empty path ≡ b
    → Spares o (stopped_at o u m a path)
unfolding stopped_at
stopped_at-Spares o u m a path true e =
    subst
      (λ b.
        All
          (λ f.
            (o.equivalent f.path path ≡ false)
            × (is_used o.equivalent f.path (stopped_at o u m a path).application.uploads.jobs
                ≡ false))
          (removed_of (if b then none else some archive)))
      (sym e) tt
  where
    archive : Archive
    archive =
        enforce_archive_limit o.equivalent o.removes o.sorted
          (gibibytes a.config.recording.archive_limit_gb) path
          (stopped_at o u m a path).application.uploads
stopped_at-Spares o u m a path false e =
    subst
      (λ b.
        All
          (λ f.
            (o.equivalent f.path path ≡ false)
            × (is_used o.equivalent f.path (stopped_at o u m a path).application.uploads.jobs
                ≡ false))
          (removed_of (if b then none else some archive)))
      (sym e)
      (All-map archive.removed (λ f h. free-parts o.equivalent path uploads.jobs f.path e h.0)
        (enforce_archive_limit-IsEvicted o.equivalent o.removes o.sorted
          (gibibytes a.config.recording.archive_limit_gb) path uploads).free)
  where
    uploads : UploadQueue
    uploads = (stopped_at o u m a path).application.uploads

    archive : Archive
    archive =
        enforce_archive_limit o.equivalent o.removes o.sorted
          (gibibytes a.config.recording.archive_limit_gb) path uploads

-- Stopping a recording removes no file from the archive that is the recording which it reports, nor
-- one that a job of the queue that it leaves is about.
pub record_stop-Spares :
    (o : Outside) (u : Bool) (m : EvidenceMetadata) (a : Application)
    → Spares o (record_stop o u m a)
unfolding record_stop
record_stop-Spares o u m a = choose (is_stopped a.recording.state)
  where
    s : RecordingSession × FilePath
    s = stop o.calls a.recording

    choose :
        (b : Bool)
        → Spares o (
            if b
            then record {
              application = a;
              answer = reply false (literal "NOT_RECORDING") (literal "Recording is not active");
              archive = none;
            }
            else stopped_at o u m (record a { recording = s.0 }) s.1)
    choose true = tt
    choose false = stopped_at-Spares o u m (record a { recording = s.0 }) s.1 _ refl
