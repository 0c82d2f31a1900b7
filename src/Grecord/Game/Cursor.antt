-- ===== src/Grecord/Game/Cursor.antt =====
-- The patches of the cursor, put on and taken off: grecord/src/Plugin.cpp.
use gambit_record.Common.{All, ℕ, Bool, true, false, List, [], ◌∷◌, if◌then◌else◌, arith, ◌≡◌, refl}
use gambit_record.Grecord.Game.{
  Memory, put, write_memory, write_all, set_game_cursor, update_cursor, dll_main, process_detach,
  zeros,
}

-- A frame that is drawn: whether a window is open, and the addresses that can be written.
abbrev pub Drawn : Type 0
Drawn = Bool × (ℕ → Bool)

-- The frames, and the unloading at the end, with the addresses that can be written then.
abbrev pub draw : List Drawn → (ℕ → Bool) → Bool → Memory → Memory
draw [] writable owned m = write_all writable (dll_main process_detach owned) m
draw (d ∷ rest) writable owned m =
    let u = update_cursor owned d.0 in draw rest writable u.0 (write_all d.1 u.1 m)

-- The bytes of the game's code at the three patched places.
abbrev pub original : List (ℕ × ℕ)
original =
    (0x53f417, 0xe8)
    ∷ (0x53f418, 0xb4)
    ∷ (0x53f419, 0x7a)
    ∷ (0x53f41a, 0x20)
    ∷ (0x53f41b, 0x00)
    ∷ (0x53f41f, 0x85)
    ∷ (0x53f420, 0xc0)
    ∷ (0x53f421, 0x0f)
    ∷ (0x53f422, 0x8c)
    ∷ (0x6194a0, 0xe9)
    ∷ []

abbrev pub IsOriginal : Memory → Type 0
IsOriginal m = All (λ p. m p.0 ≡ p.1) original

-- The patched places of the code can be written.
pub record Unlocked (writable : ℕ → Bool) : Type 0 where
  pub first : writable 0x53f417 ≡ true
  pub second : writable 0x53f41f ≡ true
  pub third : writable 0x6194a0 ≡ true

-- They can where a window is closed.
abbrev pub Unlocks : List Drawn → Type 0
Unlocks [] = Unit
Unlocks (d ∷ rest) = (d.0 ≡ false → Unlocked d.1) × Unlocks rest

abbrev code_put : Memory → Memory
code_put m = put 0x6194a0 (0xe9 ∷ []) (
    put 0x53f41f (0x85 ∷ 0xc0 ∷ 0x0f ∷ 0x8c ∷ [])
      (put 0x53f417 (0xe8 ∷ 0xb4 ∷ 0x7a ∷ 0x20 ∷ 0x00 ∷ []) m))

code_put-IsOriginal : (m : Memory) → IsOriginal (code_put m)
code_put-IsOriginal m =
    (refl, (refl, (refl, (refl, (refl, (refl, (refl, (refl, (refl, (refl, tt))))))))))

-- The two fields of the mouse lie outside of the code.
field-IsOriginal :
    (b : Bool) (m : Memory) → IsOriginal m → IsOriginal (if b then put 0xb73424 zeros m else m)
field-IsOriginal true m h = h
field-IsOriginal false m h = h

other_field-IsOriginal :
    (b : Bool) (m : Memory) → IsOriginal m → IsOriginal (if b then put 0xb7342c zeros m else m)
other_field-IsOriginal true m h = h
other_field-IsOriginal false m h = h

restored-IsOriginal :
    (writable : ℕ → Bool) (m : Memory)
    → Unlocked writable
    → IsOriginal (write_all writable (set_game_cursor false) m)
unfolding set_game_cursor write_all write_memory
restored-IsOriginal writable m u =
    rw (u.first, u.second, u.third)
      (other_field-IsOriginal (writable 0xb7342c)
        (if writable 0xb73424 then put 0xb73424 zeros (code_put m) else code_put m)
        (field-IsOriginal (writable 0xb73424) (code_put m) (code_put-IsOriginal m)))

if-IsOriginal :
    (b : Bool) (writable : ℕ → Bool) (m : Memory)
    → Unlocked writable
    → (b ≡ false → IsOriginal m)
    → IsOriginal (write_all writable (if b then set_game_cursor false else []) m)
unfolding write_all
if-IsOriginal true writable m u k = restored-IsOriginal writable m u
if-IsOriginal false writable m u k = k refl

-- While the plugin does not own the cursor, the code is the original.
drawn-IsOriginal :
    (frames : List Drawn) (writable : ℕ → Bool) (owned : Bool) (m : Memory)
    → Unlocks frames
    → Unlocked writable
    → (owned ≡ false → IsOriginal m)
    → IsOriginal (draw frames writable owned m)
unfolding update_cursor dll_main
drawn-IsOriginal [] writable owned m l u h = if-IsOriginal owned writable m u h
drawn-IsOriginal ((true, w) ∷ rest) writable owned m l u h =
    drawn-IsOriginal rest writable true (write_all w (set_game_cursor true) m) l.1 u
      (λ e. absurd (ground (arith, e)))
drawn-IsOriginal ((false, w) ∷ rest) writable owned m l u h =
    drawn-IsOriginal rest writable false
      (write_all w (if owned then set_game_cursor false else []) m) l.1 u
      (λ _. if-IsOriginal owned w m (l.0 refl) h)

-- However the windows open and close from frame to frame, and whatever of the memory can be written
-- while they are open: when the plugin is unloaded the patched bytes of the game's code are the
-- original ones, if they were when the first frame was drawn and the three places of the code can be
-- written in the frames without a window and at the unloading.
pub draw-IsOriginal :
    (frames : List Drawn) (writable : ℕ → Bool) (m : Memory)
    → Unlocks frames
    → Unlocked writable
    → IsOriginal m
    → IsOriginal (draw frames writable false m)
draw-IsOriginal frames writable m l u h = drawn-IsOriginal frames writable false m l u (λ _. h)
