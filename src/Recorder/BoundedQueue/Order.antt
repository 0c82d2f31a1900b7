-- ===== src/Recorder/BoundedQueue/Order.antt =====
-- What recorder/src/common/BoundedQueue.hpp keeps and what it loses.
use gambit_record.Common.{
  ℕ, ◌+◌, ◌≤◌, ◌<◌, refl, ◌≡◌, List, [], ◌∷◌, ◌++◌, Option, none, some, Bool, false, arith, length,
  length-append, append_assoc, if◌then◌else◌, leb, append-nil, sym, subst, ◌∙◌, Bool-cases, inl,
  inr,
}
use gambit_record.Recorder.BoundedQueue.{
  BoundedQueue, Popped, waits, gives, bounded_queue, push_full, push_drop_oldest, pop_front, pop,
  close, clear,
}

-- A producer's call, a consumer's, or the end of the stream.
pub data Call {ℓ} (T : Type ℓ) : Type ℓ where
  push : T → Call T
  take_one : Bool → Call T
  shut : Call T
  empty_out : Call T

-- A queue with what its consumers got and what its producers handed in while it was open, oldest
-- first, and how many values `clear` threw away.
pub record Flow {ℓ} (T : Type ℓ) : Type ℓ where
  pub queue : BoundedQueue T
  pub got : List T
  pub handed : List T
  pub cleared : ℕ

-- The first list is the two others in some interleaving that keeps the order of each.
pub data Merge {ℓ} {T : Type ℓ} : List T → List T → List T → Type ℓ where
  nothing : Merge [] [] []
  got_next :
      (all got lost : List T) (x : T)
      → Merge all got lost
      → Merge (all ++ x ∷ []) (got ++ x ∷ []) lost
  lost_next :
      (all got lost : List T) (x : T)
      → Merge all got lost
      → Merge (all ++ x ∷ []) got (lost ++ x ∷ [])

module _ {ℓ} {T : Type ℓ} where
  abbrev gained : Popped T → List T
  gained waits = []
  gained (gives none) = []
  gained (gives (some v)) = v ∷ []

  abbrev pushed : Option (BoundedQueue T × Bool) → BoundedQueue T → BoundedQueue T
  pushed none q = q
  pushed (some (q', kept)) q = q'

  unfoldable pub step : Call T → Flow T → Flow T
  step (push v) f = record f {
    queue = pushed (push_drop_oldest v f.queue) f.queue;
    handed = if f.queue.closed then f.handed else f.handed ++ v ∷ [];
  }
  step (take_one stop) f = record f {
    queue = (pop stop f.queue).0;
    got = f.got ++ gained (pop stop f.queue).1;
  }
  step shut f = record f { queue = close f.queue }
  step empty_out f = record f { queue = clear f.queue; cleared = f.cleared + length f.queue.queue }

  unfoldable pub run : List (Call T) → Flow T → Flow T
  unfolding step
  run [] f = f
  run (c ∷ cs) f = run cs (step c f)

  -- The queue holds the newest values that were handed in, in order and at most as many as it has
  -- room for; all older ones were got, in their order, or are among the lost ones, which are as many
  -- as were dropped or cleared.
  pub record IsFlow (f : Flow T) : Type ℓ where
    pub front : List T
    pub lost : List T
    pub in_order : f.handed ≡ front ++ f.queue.queue
    pub merged : Merge front f.got lost
    pub counted : length lost ≡ f.queue.dropped + f.cleared
    pub bounded : length f.queue.queue ≤ f.queue.capacity

  move_over :
      (xs : List T) (x : T) (ys zs : List T) → (xs ++ x ∷ ys) ++ zs ≡ (xs ++ x ∷ []) ++ (ys ++ zs)
  move_over xs x ys zs = simp append_assoc

  -- Room for one entry keeps `pop_front` away from an empty deque.
  push-IsFlow :
      (v : T) (f : Flow T) (xs : List T)
      → f.queue.queue ≡ xs
      → 0 < f.queue.capacity
      → IsFlow f
      → IsFlow (step (push v) f)
  unfolding step push_drop_oldest push_full
  push-IsFlow v f [] e room s = record {
    front = s.front;
    lost = s.lost;
    in_order = ground (arith, append_assoc s.front f.queue.queue (v ∷ []));
    merged = s.merged;
    counted = ground (arith, s.counted);
    bounded = ground arith;
  }
  push-IsFlow v f (x ∷ xs) e room s =
      elim (Bool-cases
        (if f.queue.closed then false else leb f.queue.capacity (length f.queue.queue))) [
          | inl full ↦ record {
            front = s.front ++ x ∷ [];
            lost = s.lost ++ x ∷ [];
            in_order = ground (arith, move_over s.front x xs (v ∷ []));
            merged = lost_next s.front f.got s.lost x s.merged;
            counted = ground (arith, s.counted, length-append s.lost (x ∷ []));
            bounded = ground (arith, length-append xs (v ∷ []));
          }
          | inr fits ↦ record {
            front = s.front;
            lost = s.lost;
            in_order = ground (arith, append_assoc s.front f.queue.queue (v ∷ []));
            merged = s.merged;
            counted = ground (arith, s.counted);
            bounded = ground (arith, length-append f.queue.queue (v ∷ []));
          }
        ]

  same_got :
      (front lost got got' : List T) → got ≡ got' → Merge front got lost → Merge front got' lost
  same_got front lost got got' e m = subst (λ g. Merge front g lost) e m

  take_one-IsFlow :
      (stop : Bool) (f : Flow T) (xs : List T)
      → f.queue.queue ≡ xs
      → IsFlow f
      → IsFlow (step (take_one stop) f)
  unfolding step pop pop_front
  take_one-IsFlow stop f [] e s = record {
    front = s.front;
    lost = s.lost;
    in_order = ground (arith, s.in_order);
    merged = same_got s.front s.lost f.got _ (ground (arith, append-nil f.got)) s.merged;
    counted = ground (arith, s.counted);
    bounded = ground arith;
  }
  take_one-IsFlow stop f (x ∷ xs) e s = record {
    front = s.front ++ x ∷ [];
    lost = s.lost;
    in_order =
        ground (arith, s.in_order, move_over s.front x xs [], append-nil f.handed, append-nil xs);
    merged =
        same_got (s.front ++ x ∷ []) s.lost (f.got ++ x ∷ []) _ (ground arith)
          (got_next s.front f.got s.lost x s.merged);
    counted = ground (arith, s.counted);
    bounded = ground arith;
  }

  all_lost :
      (xs front got lost : List T) → Merge front got lost → Merge (front ++ xs) got (lost ++ xs)
  all_lost [] front got lost m =
      subst (λ l. Merge (front ++ []) got l) (sym (append-nil lost))
        (subst (λ a. Merge a got lost) (sym (append-nil front)) m)
  all_lost (x ∷ xs) front got lost m =
      subst (λ l. Merge (front ++ x ∷ xs) got l) (append_assoc lost (x ∷ []) xs)
        (subst (λ a. Merge a got ((lost ++ x ∷ []) ++ xs)) (append_assoc front (x ∷ []) xs)
          (all_lost xs (front ++ x ∷ []) got (lost ++ x ∷ []) (lost_next front got lost x m)))

  clear-IsFlow : (f : Flow T) → IsFlow f → IsFlow (step empty_out f)
  unfolding step clear
  clear-IsFlow f s = record {
    front = s.front ++ f.queue.queue;
    lost = s.lost ++ f.queue.queue;
    in_order = s.in_order ∙ sym (append-nil (s.front ++ f.queue.queue));
    merged = all_lost f.queue.queue s.front f.got s.lost s.merged;
    counted = omega (arith, s.counted, length-append s.lost f.queue.queue);
    bounded = omega arith;
  }

  capacity-step : (c : Call T) (f : Flow T) → (step c f).queue.capacity ≡ f.queue.capacity
  unfolding step push_drop_oldest push_full pop pop_front close clear
  capacity-step (push v) f = ground arith
  capacity-step (take_one stop) f = ground arith
  capacity-step shut f = refl
  capacity-step empty_out f = refl

  step-IsFlow : (c : Call T) (f : Flow T) → 0 < f.queue.capacity → IsFlow f → IsFlow (step c f)
  unfolding step close
  step-IsFlow (push v) f room s = push-IsFlow v f f.queue.queue refl room s
  step-IsFlow (take_one stop) f room s = take_one-IsFlow stop f f.queue.queue refl s
  step-IsFlow empty_out f room s = clear-IsFlow f s
  step-IsFlow shut f room s = record {
    front = s.front;
    lost = s.lost;
    merged = s.merged;
    in_order = s.in_order;
    counted = s.counted;
    bounded = s.bounded;
  }

  run-IsFlow_from :
      (cs : List (Call T)) (f : Flow T) → 0 < f.queue.capacity → IsFlow f → IsFlow (run cs f)
  unfolding run
  run-IsFlow_from [] f room s = s
  run-IsFlow_from (c ∷ cs) f room s =
      run-IsFlow_from cs (step c f) (omega (arith, capacity-step c f)) (step-IsFlow c f room s)

  abbrev pub idle_flow : ℕ → Flow T
  idle_flow capacity = record { queue = bounded_queue capacity; got = []; handed = []; cleared = 0 }

  -- Whatever calls producers and consumers make on a queue with room for an entry, it holds the
  -- newest of the values handed in while it was open, in their order and at most as many as its
  -- capacity; the older ones are an interleaving of those that were got, in the order of the `pop`s,
  -- and of as many others as are counted as dropped or were thrown away by `clear`.
  pub run-IsFlow :
      (capacity : ℕ) (cs : List (Call T)) → 0 < capacity → IsFlow (run cs (idle_flow capacity))
  unfolding bounded_queue
  run-IsFlow capacity cs room = run-IsFlow_from cs (idle_flow capacity) room (record {
    front = [];
    lost = [];
    in_order = refl;
    merged = nothing;
    counted = refl;
    bounded = omega arith;
  })
