-- ===== src/Recorder/SegmentStore/Retention.antt =====
-- What the ring of recorder/src/replay/SegmentStore.cpp keeps, in memory mode.
use gambit_record.Common.{
  Bool, true, false, ◌≡◌, refl, ap, ap₂, ◌∙◌, sym, subst, ◌≢◌, List, [], ◌∷◌, ◌++◌, Option, none,
  some, ℤ, ◌+ℤ◌, ◌-ℤ◌, ◌≤ℤ◌, ◌<ℤ◌, ltb_ℤ, max_ℤ, ltb_ℤ→lt, arith, All, append_assoc, append-nil,
  is_empty, if◌then◌else◌, Bool-cases, inl, inr,
}
use gambit_record.Recorder.Media.{EncodedSample}
use gambit_record.Recorder.SegmentStore.{
  Segment, SegmentStore, Disk, Thrown, payload, start_segment, seal, drop_stale, evict,
  store_sample, write_to, rotate_from, start_if_none, append, store_in_memory, store_on_disk,
  record_bytes, ◌then_do◌,
}

abbrev pub end_of : EncodedSample → ℤ
end_of s = s.pts +ℤ s.duration

abbrev pub samples_of : List Segment → List EncodedSample
samples_of [] = []
samples_of (s ∷ segments) = s.memory_samples ++ samples_of segments

abbrev pub active_samples : Option Segment → List EncodedSample
active_samples none = []
active_samples (some a) = a.memory_samples

-- Everything that the store holds, oldest first.
abbrev pub stored : SegmentStore → List EncodedSample
stored st = samples_of st.sealed ++ active_samples st.active

-- No sample ends after its segment does.
abbrev pub Covers : Segment → Type 0
Covers s = All (λ x. end_of x ≤ℤ s.last_pts) s.memory_samples

abbrev ActiveCovers : Option Segment → Type 0
ActiveCovers none = Unit
ActiveCovers (some a) = Covers a

pub record IsCovered (st : SegmentStore) : Type 0 where
  pub in_memory : st.disk ≡ false
  pub sealed_covers : All Covers st.sealed
  pub active_covers : ActiveCovers st.active

-- The segments that `drop_stale` takes from the front.
stale : ℤ → List Segment → List Segment
stale cutoff [] = []
stale cutoff (s ∷ segments) = if ltb_ℤ s.last_pts cutoff then s ∷ stale cutoff segments else []

stale-samples :
    (cutoff : ℤ) (segments : List Segment)
    → samples_of (stale cutoff segments) ++ samples_of (drop_stale cutoff segments)
      ≡ samples_of segments
unfolding stale drop_stale
stale-samples cutoff [] = refl
stale-samples cutoff (s ∷ segments) = ground (
  arith,
  stale-samples cutoff segments,
  append_assoc s.memory_samples (samples_of (stale cutoff segments))
      (samples_of (drop_stale cutoff segments)),
)

All-append {ℓ κ} :
    {A : Type ℓ} (P : A → Type κ) (xs ys : List A) → All P xs → All P ys → All P (xs ++ ys)
All-append P [] ys h k = k
All-append P (x ∷ xs) ys h k = (h.0, All-append P xs ys h.1 k)

All-map {ℓ κ} :
    {A : Type ℓ} {P Q : A → Type κ} (xs : List A) → ((x : A) → P x → Q x) → All P xs → All Q xs
All-map [] f h = tt
All-map (x ∷ xs) f h = (f x h.0, All-map xs f h.1)

stale-ends :
    (cutoff : ℤ) (segments : List Segment)
    → All Covers segments
    → All (λ x. end_of x <ℤ cutoff) (samples_of (stale cutoff segments))
unfolding stale
stale-ends cutoff [] h = tt
stale-ends cutoff (s ∷ segments) h = elim (Bool-cases (ltb_ℤ s.last_pts cutoff)) [
  | inl old ↦
      rw (old, stale)
        (All-append (λ x. end_of x <ℤ cutoff) s.memory_samples (samples_of (stale cutoff segments))
          (All-map s.memory_samples (λ x e. omega (arith, ltb_ℤ→lt s.last_pts cutoff old)) h.0)
          (stale-ends cutoff segments h.1))
  | inr fresh ↦ rw (fresh, stale) tt
]

drop_stale-All :
    (P : Segment → Type 0) (cutoff : ℤ) (segments : List Segment)
    → All P segments
    → All P (drop_stale cutoff segments)
unfolding drop_stale
drop_stale-All P cutoff [] h = tt
drop_stale-All P cutoff (s ∷ segments) h = ground (arith, drop_stale-All P cutoff segments h.1)

-- The end of the active segment, or where the one that the sample starts begins.
abbrev pub active_end : EncodedSample → Option Segment → ℤ
active_end s none = s.pts
active_end s (some a) = a.last_pts

-- The latest of what is there before the sample's own end.
abbrev pub reach : EncodedSample → SegmentStore → ℤ
reach s st = max_ℤ s.pts (active_end s st.active)

-- The store before the write: an active segment, and the same samples.
record IsReady (s : EncodedSample) (st : SegmentStore) (t : Thrown) : Type 0 where
  fine : t.1 ≡ none
  kept : stored t.0 ≡ stored st
  covered : IsCovered t.0
  retention : t.0.retention_hns ≡ st.retention_hns
  opened : t.0.active ≢ none
  reached : active_end s t.0.active ≤ℤ reach s st

samples_of-append : (xs ys : List Segment) → samples_of (xs ++ ys) ≡ samples_of xs ++ samples_of ys
samples_of-append [] ys = refl
samples_of-append (x ∷ xs) ys =
    ap (◌++◌ x.memory_samples) (samples_of-append xs ys)
    ∙ sym (append_assoc x.memory_samples (samples_of xs) (samples_of ys))

start-IsReady :
    (d : Disk) (s : EncodedSample) (st : SegmentStore)
    → st.active ≡ none
    → IsCovered st
    → IsReady s st (start_segment d s st)
unfolding start_segment
start-IsReady d s st e c = ground arith

seal-kept : (st : SegmentStore) (a : Option Segment) → st.active ≡ a → stored (seal st) ≡ stored st
unfolding seal
seal-kept st none e = ground arith
seal-kept st (some a) e = ground (
  arith,
  samples_of-append st.sealed (a ∷ []),
  append-nil (samples_of (st.sealed ++ a ∷ [])),
  append-nil a.memory_samples,
)

seal-IsCovered :
    (st : SegmentStore) (a : Option Segment) → st.active ≡ a → IsCovered st → IsCovered (seal st)
unfolding seal
seal-IsCovered st none e c = ground arith
seal-IsCovered st (some a) e c =
    let covers : Covers a = subst ActiveCovers e c.active_covers in
    ground (arith, All-append Covers st.sealed (a ∷ []) c.sealed_covers (covers, tt))

seal-rest :
    (st : SegmentStore) → ((seal st).active ≡ none) × ((seal st).retention_hns ≡ st.retention_hns)
unfolding seal
seal-rest st = (ground arith, ground arith)

max_left : (a b : ℤ) → a ≤ℤ max_ℤ a b
max_left a b = ground arith

max_right : (a b : ℤ) → b ≤ℤ max_ℤ a b
max_right a b = ground arith

max_least : (a b c d : ℤ) → a ≤ℤ c → b ≤ℤ c → d ≤ℤ max_ℤ a b → d ≤ℤ c
max_least a b c d h k l = ground (arith, h, k, l)

IsReady-trans :
    (s : EncodedSample) (st st' : SegmentStore) (t : Thrown)
    → stored st' ≡ stored st
    → st'.retention_hns ≡ st.retention_hns
    → active_end s st'.active ≤ℤ reach s st
    → IsReady s st' t
    → IsReady s st t
IsReady-trans s st st' t e f g r = record {
  fine = r.fine;
  kept = r.kept ∙ e;
  covered = r.covered;
  retention = r.retention ∙ f;
  opened = r.opened;
  reached =
      max_least s.pts (active_end s st'.active) (reach s st) _
        (max_left s.pts (active_end s st.active)) g r.reached;
}

same-IsReady :
    (s : EncodedSample) (st : SegmentStore)
    → IsCovered st
    → st.active ≢ none
    → IsReady s st (st, none)
same-IsReady s st c o = record {
  fine = refl;
  kept = refl;
  covered = c;
  retention = refl;
  opened = o;
  reached = max_right s.pts (active_end s st.active);
}

start_if_none-IsReady :
    (d : Disk) (s : EncodedSample) (st : SegmentStore) (a : Option Segment)
    → st.active ≡ a
    → IsCovered st
    → IsReady s st (start_if_none d s st a)
unfolding start_if_none
start_if_none-IsReady d s st none e c = start-IsReady d s st e c
start_if_none-IsReady d s st (some a) e c = same-IsReady s st c (ground arith)

restart-IsReady :
    (d : Disk) (s : EncodedSample) (st : SegmentStore)
    → IsCovered st
    → IsReady s st (start_segment d s (seal st))
restart-IsReady d s st c =
    IsReady-trans s st (seal st) (start_segment d s (seal st)) (seal-kept st st.active refl)
      (seal-rest st).1
      (subst (λ o. active_end s o ≤ℤ reach s st) (sym (seal-rest st).0)
        (max_left s.pts (active_end s st.active)))
      (start-IsReady d s (seal st) (seal-rest st).0 (seal-IsCovered st st.active refl c))

choose-IsReady :
    (s : EncodedSample) (b : Bool) (st : SegmentStore) (t : Thrown)
    → IsCovered st
    → st.active ≢ none
    → IsReady s st t
    → IsReady s st (if b then t else (st, none))
choose-IsReady s true st t c o r = r
choose-IsReady s false st t c o r = same-IsReady s st c o

rotate_from-IsReady :
    (d : Disk) (s : EncodedSample) (st : SegmentStore) (a : Option Segment)
    → IsCovered st
    → st.active ≢ none
    → IsReady s st (rotate_from d s st a)
unfolding rotate_from
rotate_from-IsReady d s st none c o = same-IsReady s st c o
rotate_from-IsReady d s st (some a) c o =
    choose-IsReady s _ st (start_segment d s (seal st)) c o (restart-IsReady d s st c)

then-IsReady :
    (s : EncodedSample) (st : SegmentStore) (t : Thrown) (f : SegmentStore → Thrown)
    → IsReady s st t
    → ((st' : SegmentStore) → IsCovered st' → st'.active ≢ none → IsReady s st' (f st'))
    → IsReady s st (t then_do f)
then-IsReady s st (st', none) f r k =
    IsReady-trans s st st' (f st') r.kept r.retention r.reached (k st' r.covered r.opened)
then-IsReady s st (st', some e) f r k = absurd (ground (arith, r.fine))

abbrev pub segment_end : Option Segment → Option ℤ
segment_end none = none
segment_end (some a) = some a.last_pts

-- What `append` has done: it threw nothing, the store is well formed, the sample is held behind
-- what was held before, and what it dropped from the front ended before the window that is retained
-- in front of the end of the active segment. This end is the latest of the sample's end, its time, and
-- the end that the active segment had.
pub record KeepsWindow (s : EncodedSample) (st : SegmentStore) (t : Thrown) : Type 0 where
  pub fine : t.1 ≡ none
  pub covered : IsCovered t.0
  pub newest : ℤ
  pub active_ends : segment_end t.0.active ≡ some newest
  pub sample_ends : end_of s ≤ℤ newest
  pub reached : newest ≤ℤ max_ℤ (reach s st) (end_of s)
  pub dropped : List EncodedSample
  pub kept : stored st ++ s ∷ [] ≡ dropped ++ stored t.0
  pub ended : All (λ x. end_of x <ℤ newest -ℤ st.retention_hns) dropped

store_in_memory-KeepsWindow :
    (s : EncodedSample) (newest : ℤ) (st : SegmentStore) (a : Segment)
    → st.active ≡ some a
    → IsCovered st
    → end_of s ≤ℤ newest
    → a.last_pts ≤ℤ newest
    → newest ≤ℤ max_ℤ (reach s st) (end_of s)
    → KeepsWindow s st (store_in_memory s newest st a)
unfolding store_in_memory evict
store_in_memory-KeepsWindow s newest st a e c h k l = record {
  fine = refl;
  covered = record {
    in_memory = c.in_memory;
    sealed_covers = drop_stale-All Covers cutoff st.sealed c.sealed_covers;
    active_covers =
        All-append (λ x. end_of x ≤ℤ newest) a.memory_samples (s ∷ [])
          (All-map a.memory_samples (λ x l. omega (arith, l, k))
            (subst ActiveCovers e c.active_covers))
          (h, tt);
  };
  newest = newest;
  active_ends = refl;
  sample_ends = h;
  reached = l;
  dropped = samples_of (stale cutoff st.sealed);
  kept =
      append_assoc (samples_of st.sealed) (active_samples st.active) (s ∷ [])
      ∙ ap₂ ◌++◌ (sym (stale-samples cutoff st.sealed)) (ap (λ o. active_samples o ++ s ∷ []) e)
      ∙ append_assoc (samples_of (stale cutoff st.sealed)) _ _;
  ended = stale-ends cutoff st.sealed c.sealed_covers;
}
  where
    cutoff : ℤ
    cutoff = newest -ℤ st.retention_hns

max_again : (a b c : ℤ) → max_ℤ b c ≤ℤ max_ℤ (max_ℤ a b) c
max_again a b c = ground arith

newest_reached :
    (s : EncodedSample) (st : SegmentStore) (a : Segment)
    → st.active ≡ some a
    → max_ℤ a.last_pts (end_of s) ≤ℤ max_ℤ (reach s st) (end_of s)
newest_reached s st a e =
    subst (λ o. max_ℤ a.last_pts (end_of s) ≤ℤ max_ℤ (max_ℤ s.pts (active_end s o)) (end_of s))
      (sym e) (max_again s.pts a.last_pts (end_of s))

store_sample-KeepsWindow :
    (d : Disk) (s : EncodedSample) (st : SegmentStore) (a : Segment)
    → st.active ≡ some a
    → IsCovered st
    → KeepsWindow s st (store_sample d s st a)
unfolding store_sample
store_sample-KeepsWindow d s st a e c =
    subst
      (λ b.
        KeepsWindow s st (
          if b
          then store_on_disk d (record_bytes s) newest st a
          else store_in_memory s newest st a))
      (sym c.in_memory)
      (store_in_memory-KeepsWindow s newest st a e c (ground arith) (ground arith)
        (newest_reached s st a e))
  where
    newest : ℤ
    newest = max_ℤ a.last_pts (end_of s)

write_to-KeepsWindow :
    (d : Disk) (s : EncodedSample) (st : SegmentStore) (a : Option Segment)
    → st.active ≡ a
    → st.active ≢ none
    → IsCovered st
    → KeepsWindow s st (write_to d s st a)
unfolding write_to
write_to-KeepsWindow d s st none e o c = absurd (o e)
write_to-KeepsWindow d s st (some a) e o c = store_sample-KeepsWindow d s st a e c

max_under : (a b c n : ℤ) → a ≤ℤ c → n ≤ℤ max_ℤ a b → n ≤ℤ max_ℤ c b
max_under a b c n h k = ground (arith, h, k)

max_self : (a : ℤ) → a ≤ℤ a
max_self a = omega arith

-- The same samples and the same window before the write.
KeepsWindow-from :
    (s : EncodedSample) (st st' : SegmentStore) (t : Thrown)
    → stored st' ≡ stored st
    → st'.retention_hns ≡ st.retention_hns
    → active_end s st'.active ≤ℤ reach s st
    → KeepsWindow s st' t
    → KeepsWindow s st t
KeepsWindow-from s st st' t e f g k = record {
  fine = k.fine;
  covered = k.covered;
  newest = k.newest;
  active_ends = k.active_ends;
  sample_ends = k.sample_ends;
  reached =
      max_under (reach s st') (end_of s) (reach s st) k.newest
        (max_least s.pts (active_end s st'.active) (reach s st) (reach s st')
          (max_left s.pts (active_end s st.active)) g (max_self (reach s st')))
        k.reached;
  dropped = k.dropped;
  kept = ap (λ xs. xs ++ s ∷ []) (sym e) ∙ k.kept;
  ended = subst (λ r. All (λ x. end_of x <ℤ k.newest -ℤ r) k.dropped) f k.ended;
}

finish-KeepsWindow :
    (s : EncodedSample) (st : SegmentStore) (d : Disk) (t : Thrown)
    → IsReady s st t
    → KeepsWindow s st (t then_do (λ st. write_to d s st st.active))
finish-KeepsWindow s st d (st', none) r =
    KeepsWindow-from s st st' _ r.kept r.retention r.reached
      (write_to-KeepsWindow d s st' st'.active refl r.opened r.covered)
finish-KeepsWindow s st d (st', some e) r = absurd (ground (arith, r.fine))

-- In memory mode, appending a sample that has bytes throws nothing and keeps the store well formed.
-- The store then holds what it held, and behind that the new sample, less a first part of it; and
-- each sample of that part ended more than the retention time before the end of the active segment.
-- This end is no earlier than the end of the new sample, and no later than the latest of that, the
-- time of the sample, and the end that the active segment had.
pub append-KeepsWindow :
    (d : Disk) (s : EncodedSample) (st : SegmentStore)
    → IsCovered st
    → is_empty (payload s) ≡ false
    → KeepsWindow s st (append d s st)
unfolding append
append-KeepsWindow d s st c full =
    subst (λ b. KeepsWindow s st (if b then (st, none) else appended)) (sym full)
      (finish-KeepsWindow s st d _ (
        then-IsReady s st (start_if_none d s st st.active) (λ st. rotate_from d s st st.active)
          (start_if_none-IsReady d s st st.active refl c)
          (λ st' c' o. rotate_from-IsReady d s st' st'.active c' o)))
  where
    appended : Thrown
    appended =
        start_if_none d s st st.active
        then_do (λ st. rotate_from d s st st.active)
        then_do (λ st. write_to d s st st.active)
