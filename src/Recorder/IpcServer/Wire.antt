-- ===== src/Recorder/IpcServer/Wire.antt =====
-- What recorder/src/ipc/IpcServer.cpp reads from a client and sends to it.
use gambit_record.Common.{
  ℕ, zero, suc, ◌+◌, ◌≤◌, ◌<◌, Bool, true, false, not, List, [], ◌∷◌, ◌++◌, Option, none, some, ltb,
  if◌then◌else◌, length, length-append, take, drop, Text, take-append-drop, append_assoc, arith,
  All, ◌≡◌, refl, sym, ap, ◌∙◌, Bool-cases, inl, inr, subst, ◌⊎◌,
}
use gambit_record.Recorder.IpcServer.{max_message, has_newline, read_request, write_all}

-- A request is shorter than the limit and one read together.
pub read_request-le :
    (limit : ℕ) (reads : List Text) (request : Text)
    → All (λ got. length got ≤ limit) reads
    → length request < max_message + limit
    → length (read_request reads request) < max_message + limit
unfolding read_request
read_request-le limit [] request h k = k
read_request-le limit (got ∷ reads) request h k =
    elim (Bool-cases (ltb (length request) max_message)) [
      | inr large ↦
          subst (λ b. length (if not b then request else rest) < max_message + limit) (sym large) k
      | inl small ↦
          let next : length (request ++ got) < max_message + limit =
            ground (arith, small, h.0, length-append {0} request got) in
          subst (λ b. length (if not b then request else rest) < max_message + limit) (sym small)
            (choose (has_newline (request ++ got)) next
              (read_request-le limit reads (request ++ got) h.1 next))
    ]
  where
    rest : Text
    rest =
        if has_newline (request ++ got) then request ++ got else read_request reads (request ++ got)

    choose :
        (b : Bool)
        → length (request ++ got) < max_message + limit
        → length (read_request reads (request ++ got)) < max_message + limit
        → length (if b then request ++ got else read_request reads (request ++ got))
          < max_message + limit
    choose true h k = h
    choose false h k = k

-- Whatever the writes to the pipe return, what is sent is a first part of the data, and it is all of
-- the data where `write_all` returns true.
pub write_all-sent :
    (writes : List (Option ℕ)) (bytes : Text)
    → (rest : Text) × ((write_all writes bytes).0 ++ rest ≡ bytes)
      × (((write_all writes bytes).1 ≡ false) ⊎ (rest ≡ []))
unfolding write_all
write_all-sent writes [] = ([], refl, inr refl)
write_all-sent [] (c ∷ bytes) = (c ∷ bytes, refl, inl refl)
write_all-sent (none ∷ writes) (c ∷ bytes) = (c ∷ bytes, refl, inl refl)
write_all-sent (some zero ∷ writes) (c ∷ bytes) = (c ∷ bytes, refl, inl refl)
write_all-sent (some (suc n) ∷ writes) (c ∷ bytes) =
    let more = write_all-sent writes (drop n bytes) in
    (
      more.0,
      ap (◌∷◌ c) (
          append_assoc (take n bytes) (write_all writes (drop n bytes)).0 more.0
          ∙ ap (◌++◌ (take n bytes)) more.1
          ∙ take-append-drop n bytes),
      more.2,
    )
