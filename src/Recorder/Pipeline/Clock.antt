-- ===== src/Recorder/Pipeline/Clock.antt =====
-- The time in the rounds of encoder_loop: recorder/src/app/Application.cpp. The abstract
-- view of the pipeline is the time of the last frame and the number of the dropped frames.
use gambit_record.Common.{
  ℕ, suc, ap, ◌≤◌, ◌/◌, Bool, true, false, not, ◌&&◌, List, [], ◌∷◌, Option, none, some,
  if◌then◌else◌, arith, ◌≡◌, ◌≢◌, ◌⊎◌, leb_ℤ→le, leb_ℤ→gt, negsuc, refl, sym, subst, ◌∙◌, inl, inr,
  Bool-cases, ℤ, pos, ◌+ℤ◌, ◌-ℤ◌, ◌≤ℤ◌, ◌<ℤ◌, ltb_ℤ, leb_ℤ, eqb_ℤ, ltb_ℤ→lt, ltb_ℤ→ge, +ℤ_parts,
  -ℤ_parts,
}
use gambit_record.Recorder.Media.{VideoFrame, hns_per_second}
use gambit_record.Recorder.Application.{minimum_interval, pace}
use gambit_record.Recorder.Pipeline.{
  Pipeline, Surroundings, round, paced_round, process, handled, failed, size_changed,
}
use gambit_record.Recorder.Pipeline.Timing.{
  Done, Broken, process-Post, Failed, counts, recovers as recovers_from, failed-Failed,
}

-- The abstract view: the time of the last frame, where 0 is none, the number of dropped frames, the
-- time of the frame that the encoder had last, and the failures in a row.
pub record Clock : Type 0 where
  pub last : ℤ
  pub dropped : ℕ
  pub encoded_at : ℤ
  pub failures : ℕ

abbrev pub clock : Pipeline → Clock
clock p = record {
  last = p.last_capture_pts;
  dropped = p.dropped_frames;
  encoded_at = p.encoder.last_pts;
  failures = p.consecutive_failures;
}

-- A frame with its time, whether its size is another, and whether an exception ends its round.
pub record Label : Type 0 where
  pub pts : ℤ
  pub resized : Bool
  pub fails : Bool

-- The time of an encoded frame: its own, which is far enough behind the last, or one frame behind
-- the last.
pub data Timed (fps : ℕ) (last pts : ℤ) : ℤ → Type 0 where
  own :
      last <ℤ pts
      → (last ≡ pos 0) ⊎ (last +ℤ pos (minimum_interval fps) ≤ℤ pts)
      → Timed fps last pts pts
  moved : pts ≤ℤ last → Timed fps last pts (last +ℤ pos (hns_per_second / fps))

-- A frame too close behind the last is counted and nothing else. Another one is encoded at its time,
-- which is the last one then, or none behind a change of the size. An exception is counted; the third
-- in a row may end with a recovery, which takes the last time away and starts the count again.
pub data Tick (fps : ℕ) (l : Label) (c : Clock) : Clock → Type 0 where
  skips :
      c.last ≢ pos 0
      → c.last <ℤ l.pts
      → l.pts <ℤ c.last +ℤ pos (minimum_interval fps)
      → Tick fps l c (record c { dropped = suc c.dropped })
  encodes :
      (t : ℤ)
      → Timed fps c.last l.pts t
      → l.fails ≡ false
      → Tick fps l c (record {
        last = if l.resized then pos 0 else t;
        dropped = c.dropped;
        encoded_at = t;
        failures = 0;
      })
  breaks :
      (t u e : ℤ)
      → Timed fps c.last l.pts t
      → l.fails ≡ true
      → (u ≡ t) ⊎ ((l.resized ≡ true) × (u ≡ pos 0))
      → Tick fps l c
          (record { last = u; dropped = c.dropped; encoded_at = e; failures = suc c.failures })
  recovers :
      (t e : ℤ)
      → Timed fps c.last l.pts t
      → l.fails ≡ true
      → 2 ≤ c.failures
      → Tick fps l c (record { last = pos 0; dropped = c.dropped; encoded_at = e; failures = 0 })

pub data Ticks (fps : ℕ) : List Label → Clock → Clock → Type 0 where
  at_end : (c : Clock) → Ticks fps [] c c
  tick :
      (l : Label) (rest : List Label) (c d e : Clock)
      → Tick fps l c d
      → Ticks fps rest d e
      → Ticks fps (l ∷ rest) c e

-- Which of the cases `pace` takes.
data Choice (fps : ℕ) (last pts : ℤ) : Option ℤ → Type 0 where
  skipped :
      last ≢ pos 0
      → last <ℤ pts
      → pts <ℤ last +ℤ pos (minimum_interval fps)
      → Choice fps last pts none
  timed : (t : ℤ) → Timed fps last pts t → Choice fps last pts (some t)

eqb_ℤ→eq : (a : ℤ) → eqb_ℤ a (pos 0) ≡ true → a ≡ pos 0
eqb_ℤ→eq (pos n) h = ground arith
eqb_ℤ→eq (negsuc n) h = absurd (ground (arith, h))

eqb_ℤ→ne : (a : ℤ) → eqb_ℤ a (pos 0) ≡ false → a ≢ pos 0
eqb_ℤ→ne a h e = ground (arith, subst (λ b. eqb_ℤ b (pos 0) ≡ false) e h)

not_close :
    (b : Bool) (fps : ℕ) (last pts : ℤ)
    → (not b && ltb_ℤ last pts && ltb_ℤ (pts -ℤ last) (pos (minimum_interval fps))) ≡ false
    → b ≡ false
    → last <ℤ pts
    → last +ℤ pos (minimum_interval fps) ≤ℤ pts
not_close b fps last pts h k l = omega (
  arith,
  ltb_ℤ→ge (pts -ℤ last) (pos (minimum_interval fps)) (ground (arith, h, k, l)),
  -ℤ_parts pts last,
  +ℤ_parts last (pos (minimum_interval fps)),
)

close :
    (b : Bool) (fps : ℕ) (last pts : ℤ)
    → (not b && ltb_ℤ last pts && ltb_ℤ (pts -ℤ last) (pos (minimum_interval fps))) ≡ true
    → (b ≡ false) × (last <ℤ pts) × (pts <ℤ last +ℤ pos (minimum_interval fps))
close b fps last pts h = (
  ground (arith, h),
  ltb_ℤ→lt last pts (ground (arith, h)),
  omega (
    arith,
    ltb_ℤ→lt (pts -ℤ last) (pos (minimum_interval fps)) (ground (arith, h)),
    -ℤ_parts pts last,
    +ℤ_parts last (pos (minimum_interval fps)),
  ),
)

if-Choice :
    (fps : ℕ) (last pts : ℤ) (b : Bool) (x y : Option ℤ)
    → (b ≡ true → Choice fps last pts x)
    → (b ≡ false → Choice fps last pts y)
    → Choice fps last pts (if b then x else y)
if-Choice fps last pts true x y h k = h refl
if-Choice fps last pts false x y h k = k refl

pace-Choice : (fps : ℕ) (last pts : ℤ) → Choice fps last pts (pace fps last pts)
unfolding pace
pace-Choice fps last pts =
    if-Choice fps last pts _ none _
      (λ h.
        let c = close (eqb_ℤ last (pos 0)) fps last pts h in skipped (eqb_ℤ→ne last c.0) c.1 c.2)
      (λ h.
        if-Choice fps last pts (leb_ℤ pts last) _ (some pts)
          (λ k. timed (last +ℤ pos (hns_per_second / fps)) (moved (leb_ℤ→le pts last k)))
          (λ k. timed pts (
            own (leb_ℤ→gt pts last k) (elim (Bool-cases (eqb_ℤ last (pos 0))) [
              | inl e ↦ inl (eqb_ℤ→eq last e)
              | inr e ↦ inr (not_close (eqb_ℤ last (pos 0)) fps last pts h e (leb_ℤ→gt pts last k))
            ]))))

-- Whether an exception ends the round of a frame.
abbrev pub breaks_at : Surroundings → VideoFrame → Pipeline → Option ℤ → Bool
breaks_at s frame p none = false
breaks_at s frame p (some t) =
    not (process s (record frame { pts = t }) (record p { last_capture_pts = t })).1

abbrev label_at : Surroundings → VideoFrame → Pipeline → Option ℤ → Label
label_at s frame p o = record {
  pts = frame.pts;
  resized = size_changed frame p.application.stream;
  fails = breaks_at s frame p o;
}

abbrev pub label : Surroundings → VideoFrame → Pipeline → Label
label s frame p =
    label_at s frame p (pace p.application.config.video.fps p.last_capture_pts frame.pts)

-- The round as one step of the abstract view, with the frame rate kept.
record IsRound (l : Label) (p q : Pipeline) : Type 0 where
  fps : q.application.config.video.fps ≡ p.application.config.video.fps
  step : Tick p.application.config.video.fps l (clock p) (clock q)

clock-eq :
    (q : Pipeline) (last : ℤ) (dropped : ℕ) (at : ℤ) (failures : ℕ)
    → q.last_capture_pts ≡ last
    → q.dropped_frames ≡ dropped
    → q.encoder.last_pts ≡ at
    → q.consecutive_failures ≡ failures
    → record { last = last; dropped = dropped; encoded_at = at; failures = failures } ≡ clock q
clock-eq q last dropped at failures h k l m =
    λ i. record { last = sym h i; dropped = sym k i; encoded_at = sym l i; failures = sym m i }

module _ (s : Surroundings) (frame : VideoFrame) (p : Pipeline) (t : ℤ)
    (timed_at : Timed p.application.config.video.fps p.last_capture_pts frame.pts t) where
  abbrev moved_to : Pipeline
  moved_to = record p { last_capture_pts = t }

  abbrev changed : Bool
  changed = size_changed frame p.application.stream

  -- The label of a round that ends so.
  abbrev ends : Bool → Label
  ends fails = record { pts = frame.pts; resized = changed; fails = fails }

  fine_end : (q : Pipeline) → Done changed t moved_to q → IsRound (ends false) p q
  fine_end q d = record {
    fps = d.fps;
    step =
        subst (Tick p.application.config.video.fps (ends false) (clock p))
          (clock-eq q (if changed then pos 0 else t) p.dropped_frames t 0 d.last d.dropped
            d.encoded_at d.failures)
          (encodes t timed_at refl);
  }

  caught_last :
      (q r : Pipeline)
      → r.last_capture_pts ≡ q.last_capture_pts
      → (q.last_capture_pts ≡ t) ⊎ ((changed ≡ true) × (q.last_capture_pts ≡ pos 0))
      → (r.last_capture_pts ≡ t) ⊎ ((changed ≡ true) × (r.last_capture_pts ≡ pos 0))
  caught_last q r h (inl k) = inl (h ∙ k)
  caught_last q r h (inr k) = inr (k.0, h ∙ k.1)

  thrown_end : (q r : Pipeline) → Broken changed moved_to q → Failed q r → IsRound (ends true) p r
  thrown_end q r b (counts k) = record {
    fps = k.fps ∙ b.fps;
    step =
        subst (Tick p.application.config.video.fps (ends true) (clock p))
          (clock-eq r r.last_capture_pts p.dropped_frames r.encoder.last_pts
            (suc p.consecutive_failures) refl (k.dropped ∙ b.dropped) refl
            (k.failures ∙ ap suc b.failures))
          (breaks t r.last_capture_pts r.encoder.last_pts timed_at refl
            (caught_last q r k.last b.last));
  }
  thrown_end q r b (recovers_from many fps dropped last failures) = record {
    fps = fps ∙ b.fps;
    step =
        subst (Tick p.application.config.video.fps (ends true) (clock p))
          (clock-eq r (pos 0) p.dropped_frames r.encoder.last_pts 0 last (dropped ∙ b.dropped) refl
            failures)
          (recovers t r.encoder.last_pts timed_at refl (subst (λ n. 2 ≤ n) b.failures many));
  }

  handled-IsRound :
      (x : Pipeline × Bool)
      → (x.1 ≡ true → Done changed t moved_to x.0)
      → (x.1 ≡ false → Broken changed moved_to x.0)
      → IsRound (ends (not x.1)) p (handled s x)
  unfolding handled
  handled-IsRound (q, true) h k = fine_end q (h refl)
  handled-IsRound (q, false) h k = thrown_end q (failed s q) (k refl) (failed-Failed s q)

paced_round-IsRound :
    (s : Surroundings) (frame : VideoFrame) (p : Pipeline) (o : Option ℤ)
    → Choice p.application.config.video.fps p.last_capture_pts frame.pts o
    → IsRound (label_at s frame p o) p (paced_round s frame p o)
unfolding paced_round size_changed
paced_round-IsRound s frame p none (skipped z l c) = record { fps = refl; step = skips z l c }
paced_round-IsRound s frame p (some t) (timed _ h) =
    let encoded_frame = record frame { pts = t } in
    let q = record p { last_capture_pts = t } in
    let k = process-Post s encoded_frame q in
    handled-IsRound s frame p t h (process s encoded_frame q) k.0 k.1

round-IsRound :
    (s : Surroundings) (frame : VideoFrame) (p : Pipeline)
    → IsRound (label s frame p) p (round s frame p)
unfolding round
round-IsRound s frame p =
    paced_round-IsRound s frame p (pace p.application.config.video.fps p.last_capture_pts frame.pts)
      (pace-Choice p.application.config.video.fps p.last_capture_pts frame.pts)

-- Rounds of the loop, each with what it meets.
abbrev pub rounds : List (Surroundings × VideoFrame) → Pipeline → Pipeline
rounds [] p = p
rounds ((s, frame) ∷ rest) p = rounds rest (round s frame p)

abbrev pub labels_of : List (Surroundings × VideoFrame) → Pipeline → List Label
labels_of [] p = []
labels_of ((s, frame) ∷ rest) p = label s frame p ∷ labels_of rest (round s frame p)

-- The rounds of the loop refine the clock with its counters, whatever fails in them: a frame behind
-- the last one by less than the interval is counted as dropped and leaves the rest; any other one is
-- encoded at its own time or one frame behind the last, and this is the clock's time then, or none
-- behind a change of the size. An exception is counted instead, and keeps this time or, where the size
-- changed, none; only from the third in a row on a recovery may set the clock and the count to 0.
pub rounds-Ticks :
    (xs : List (Surroundings × VideoFrame)) (p : Pipeline)
    → Ticks p.application.config.video.fps (labels_of xs p) (clock p) (clock (rounds xs p))
rounds-Ticks [] p = at_end (clock p)
rounds-Ticks ((s, frame) ∷ rest) p =
    let r = round-IsRound s frame p in
    let q = round s frame p in
    tick (label s frame p) (labels_of rest q) (clock p) (clock q) (clock (rounds rest q)) r.step (
      subst (λ n. Ticks n (labels_of rest q) (clock q) (clock (rounds rest q))) r.fps
        (rounds-Ticks rest q))
