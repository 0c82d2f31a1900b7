-- ===== src/Grecord/Worker/Split.antt =====
-- The command line of grecord/src/Plugin.cpp, launch_worker, as Windows splits it.
use gambit_record.Common.{
  ℕ, ◌+◌, ◌∷◌, [], ◌++◌, List, true, false, All, Ending, decimal-Ending, Text, literal, decimal,
  ltb, ◌==◌, arith, ◌≡◌, refl, ap, ◌∙◌, sym, subst, append_assoc,
}
use gambit_record.Grecord.Worker.{pipe_name, command_line}

-- No quote; and no blank, quote or backslash.
abbrev pub IsUnquoted : ℕ → Type 0
IsUnquoted c = (c == 34) ≡ false

abbrev pub IsPlain : ℕ → Type 0
IsPlain c = ((c == 32) ≡ false) × ((c == 34) ≡ false) × ((c == 92) ≡ false) × ((c == 9) ≡ false)

-- What Windows documents of the split of a command line into the program and its arguments: the
-- program is what stands between two quotes, a word ends at a blank, and a quoted argument that does
-- not end in a backslash is what stands between its quotes.
pub record IsSplit (split arguments : Text → List Text) : Type 0 where
  pub program :
      (w rest : Text) → All IsUnquoted w → split (34 ∷ (w ++ 34 ∷ 32 ∷ rest)) ≡ w ∷ arguments rest
  pub word : (w rest : Text) → Ending IsPlain w → arguments (w ++ 32 ∷ rest) ≡ w ∷ arguments rest
  pub quoted :
      (v : Text) (d : ℕ)
      → All IsUnquoted v
      → IsPlain d
      → arguments (34 ∷ ((v ++ d ∷ []) ++ 34 ∷ [])) ≡ (v ++ d ∷ []) ∷ []

-- The parts of the command line.
abbrev pub parts : Text → ℕ → List Text
parts worker pid =
    worker ∷ literal "--parent-pid" ∷ decimal pid ∷ literal "--pipe" ∷ pipe_name pid ∷ []

digit-IsPlain : (n : ℕ) → ltb n 10 ≡ true → IsPlain (48 + n)
digit-IsPlain n h = (ground (arith, h), ground (arith, h), ground (arith, h), ground (arith, h))

pub decimal-IsPlain : (n : ℕ) → Ending IsPlain (decimal n)
decimal-IsPlain n = decimal-Ending IsPlain digit-IsPlain n

append-IsUnquoted : (v w : Text) → All IsUnquoted v → All IsPlain w → All IsUnquoted (v ++ w)
append-IsUnquoted [] [] h k = tt
append-IsUnquoted [] (c ∷ w) h k = (k.0.1, append-IsUnquoted [] w tt k.1)
append-IsUnquoted (c ∷ v) w h k = (h.0, append-IsUnquoted v w h.1 k)

abbrev prefix : Text
unfolding literal
prefix = literal "\\\\.\\pipe\\GambitRecord-"

prefix-IsUnquoted : All IsUnquoted prefix
unfolding prefix
prefix-IsUnquoted = (
  refl,
  (
    refl,
    (
      refl,
      (
        refl,
        (
          refl,
          (
            refl,
            (
              refl,
              (
                refl,
                (
                  refl,
                  (
                    refl,
                    (
                      refl,
                      (
                        refl,
                        (
                          refl,
                          (
                            refl,
                            (refl, (refl, (refl, (refl, (refl, (refl, (refl, (refl, tt)))))))),
                          ),
                        ),
                      ),
                    ),
                  ),
                ),
              ),
            ),
          ),
        ),
      ),
    ),
  ),
)

option-IsPlain : Ending IsPlain (literal "--parent-pid")
unfolding literal
option-IsPlain = record {
  front = 45 ∷ 45 ∷ 112 ∷ 97 ∷ 114 ∷ 101 ∷ 110 ∷ 116 ∷ 45 ∷ 112 ∷ 105 ∷ [];
  last = 100;
  shape = refl;
  front_holds = (
    (refl, refl, refl, refl),
    (
      (refl, refl, refl, refl),
      (
        (refl, refl, refl, refl),
        (
          (refl, refl, refl, refl),
          (
            (refl, refl, refl, refl),
            (
              (refl, refl, refl, refl),
              (
                (refl, refl, refl, refl),
                (
                  (refl, refl, refl, refl),
                  (
                    (refl, refl, refl, refl),
                    ((refl, refl, refl, refl), ((refl, refl, refl, refl), tt)),
                  ),
                ),
              ),
            ),
          ),
        ),
      ),
    ),
  );
  last_holds = (refl, refl, refl, refl);
}

pipe-IsPlain : Ending IsPlain (literal "--pipe")
unfolding literal
pipe-IsPlain = record {
  front = 45 ∷ 45 ∷ 112 ∷ 105 ∷ 112 ∷ [];
  last = 101;
  shape = refl;
  front_holds = (
    (refl, refl, refl, refl),
    (
      (refl, refl, refl, refl),
      ((refl, refl, refl, refl), ((refl, refl, refl, refl), ((refl, refl, refl, refl), tt))),
    ),
  );
  last_holds = (refl, refl, refl, refl);
}

module _ {split arguments : Text → List Text} (laws : IsSplit split arguments) where
  quoted_pipe : (pid : ℕ) → arguments (34 ∷ (pipe_name pid ++ 34 ∷ [])) ≡ pipe_name pid ∷ []
  unfolding pipe_name prefix
  quoted_pipe pid =
      let d = decimal-IsPlain pid in
      subst (λ s. arguments (34 ∷ (s ++ 34 ∷ [])) ≡ s ∷ [])
        (append_assoc prefix d.front (d.last ∷ []) ∙ ap (◌++◌ prefix) (sym d.shape))
        (laws.quoted (prefix ++ d.front) d.last
          (append-IsUnquoted prefix d.front prefix-IsUnquoted d.front_holds) d.last_holds)

  pub command_line-parts :
      (worker : Text) (pid : ℕ)
      → All IsUnquoted worker
      → split (command_line worker pid) ≡ parts worker pid
  unfolding command_line literal
  command_line-parts worker pid h =
      laws.program worker _ h
      ∙ ap (λ l. worker ∷ l)
          (laws.word (literal "--parent-pid") _ option-IsPlain
            ∙ ap (λ l. literal "--parent-pid" ∷ l)
                (laws.word (decimal pid) _ (decimal-IsPlain pid)
                  ∙ ap (λ l. decimal pid ∷ l)
                      (laws.word (literal "--pipe") _ pipe-IsPlain
                        ∙ ap (λ l. literal "--pipe" ∷ l) (quoted_pipe pid))))
