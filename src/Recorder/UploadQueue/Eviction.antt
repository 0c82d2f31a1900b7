-- ===== src/Recorder/UploadQueue/Eviction.antt =====
-- What UploadQueue::enforce_archive_limit of recorder/src/broker/UploadQueue.cpp removes.
use gambit_record.Common.{
  ℕ, ◌+◌, ◌-◌, ◌≤◌, Bool, true, false, List, [], ◌∷◌, leb, if◌then◌else◌, arith, All, ◌≡◌, refl,
  subst, sym, ◌⊎◌, inl, inr, Bool-cases,
}
use gambit_record.Recorder.Files.{FilePath}
use gambit_record.Recorder.UploadQueue.{
  UploadQueue, File, Archive, keep_file, remove_file, evict_files, sum_of, is_protected,
  enforce_archive_limit,
}

-- The sizes add up, nothing protected is removed, and unless the rest fits, all that is left is
-- protected or cannot be removed. `extra` is the size of files that are kept besides.
pub record IsEvicted (limit : ℕ) (protected removes : FilePath → Bool) (files : List File)
    (extra : ℕ) (a : Archive) : Type 0 where
  pub rest : a.total_size ≡ sum_of a.kept + extra
  pub whole : sum_of a.kept + sum_of a.removed ≡ sum_of files
  pub free : All (λ f. (protected f.path ≡ false) × (removes f.path ≡ true)) a.removed
  pub fits :
      (a.total_size ≤ limit)
      ⊎ All (λ f. (protected f.path ≡ true) ⊎ (removes f.path ≡ false)) a.kept

kept-IsEvicted :
    (limit : ℕ) (protected removes : FilePath → Bool) (f : File) (files : List File) (extra : ℕ)
    (a : Archive)
    → (protected f.path ≡ true) ⊎ (removes f.path ≡ false)
    → IsEvicted limit protected removes files (f.size + extra) a
    → IsEvicted limit protected removes (f ∷ files) extra (keep_file f a)
unfolding keep_file sum_of
kept-IsEvicted limit protected removes f files extra a h e = record {
  rest = omega (arith, e.rest);
  whole = omega (arith, e.whole);
  free = e.free;
  fits = elim e.fits [ inl l ↦ inl l | inr k ↦ inr (h, k) ];
}

removed-IsEvicted :
    (limit : ℕ) (protected removes : FilePath → Bool) (f : File) (files : List File) (extra : ℕ)
    (a : Archive)
    → protected f.path ≡ false
    → removes f.path ≡ true
    → IsEvicted limit protected removes files extra a
    → IsEvicted limit protected removes (f ∷ files) extra (remove_file f a)
unfolding remove_file sum_of
removed-IsEvicted limit protected removes f files extra a h k e = record {
  rest = e.rest;
  whole = omega (arith, e.whole);
  free = ((h, k), e.free);
  fits = e.fits;
}

evict_files-IsEvicted :
    (limit : ℕ) (protected removes : FilePath → Bool) (files : List File) (extra total : ℕ)
    → total ≡ sum_of files + extra
    → IsEvicted limit protected removes files extra
        (evict_files limit protected removes files total)
unfolding evict_files sum_of
evict_files-IsEvicted limit protected removes [] extra total e = record {
  rest = e;
  whole = refl;
  free = tt;
  fits = inr tt;
}
evict_files-IsEvicted limit protected removes (f ∷ files) extra total e =
    let without =
      evict_files-IsEvicted limit protected removes files (f.size + extra) total
        (omega (arith, e)) in
    elim (Bool-cases (leb total limit)) [
      | inl under ↦
          subst (λ b. Evicted b (protected f.path) (removes f.path)) (sym under)
            (record {
              rest = e;
              whole = omega arith;
              free = tt;
              fits = inl (ground (arith, under));
            })
      | inr over ↦ elim (Bool-cases (protected f.path)) [
        | inl held ↦
            subst (λ b. Evicted b (protected f.path) (removes f.path)) (sym over)
              (subst (λ p. Evicted false p (removes f.path)) (sym held)
                (kept-IsEvicted limit protected removes f files extra skipped (inl held) without))
        | inr loose ↦
            subst (λ b. Evicted b (protected f.path) (removes f.path)) (sym over)
              (subst (λ p. Evicted false p (removes f.path)) (sym loose)
                (elim (Bool-cases (removes f.path)) [
                  | inl gone ↦
                      subst (λ r. Evicted false false r) (sym gone)
                        (removed-IsEvicted limit protected removes f files extra freed loose gone (
                          evict_files-IsEvicted limit protected removes files extra (total - f.size)
                            (omega (arith, e))))
                  | inr stays ↦
                      subst (λ r. Evicted false false r) (sym stays)
                        (kept-IsEvicted limit protected removes f files extra skipped (inr stays)
                          without)
                ]))
      ]
    ]
  where
    skipped : Archive
    skipped = evict_files limit protected removes files total

    freed : Archive
    freed = evict_files limit protected removes files (total - f.size)

    Evicted : Bool → Bool → Bool → Type 0
    Evicted under held gone = IsEvicted limit protected removes (f ∷ files) extra (
        if under
        then record { kept = f ∷ files; removed = []; total_size = total }
        else if held
        then keep_file f skipped
        else if gone
        then remove_file f freed
        else keep_file f skipped)

-- Enforcing the limit of the archive removes no file that is kept or in the queue. What is kept and
-- what is removed have the size of all files together, the total ends as the size of what is kept,
-- and it is within the limit, or each kept file is protected or could not be removed.
pub enforce_archive_limit-IsEvicted :
    (equivalent : FilePath → FilePath → Bool) (removes : FilePath → Bool) (sorted : List File)
    (limit : ℕ) (keep : FilePath) (st : UploadQueue)
    → IsEvicted limit
        (is_protected equivalent keep st.jobs)
        removes
        sorted
        0
        (enforce_archive_limit equivalent removes sorted limit keep st)
unfolding enforce_archive_limit
enforce_archive_limit-IsEvicted equivalent removes sorted limit keep st =
    evict_files-IsEvicted limit (is_protected equivalent keep st.jobs) removes sorted 0
      (sum_of sorted) (omega arith)
