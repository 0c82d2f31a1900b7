-- ===== src/Grecord/Logic/Target.antt =====
-- Who is watched: the target of grecord/src/Logic.cpp.
use gambit_record.Common.{
  refl, ◌≡◌, ◌≢◌, List, [], ◌∷◌, ◌++◌, none, some, arith, Text, ℤ, negsuc, eqb_ℤ, literal,
  if◌then◌else◌,
}
use gambit_record.Grecord.Logic.{
  Logic, logic, find_name, put_name, print_int, on_spectating_player, on_player_name,
  clear_spectating, reset_session, on_command, on_server_message,
}
use gambit_record.Grecord.Logic.Session.{Event, command, name_of, step, run}

-- The map of names after a write.
pub find_name-put_name :
    (i j : ℤ) (name : Text) (names : List (ℤ × Text))
    → find_name j (put_name i name names) ≡ (if eqb_ℤ i j then some name else find_name j names)
unfolding find_name put_name
find_name-put_name i j name [] = refl
find_name-put_name i j name ((k, old) ∷ names) = ground (arith, find_name-put_name i j name names)

-- What the plugin shows for a player.
abbrev pub label : ℤ → List (ℤ × Text) → Text
label id names = elim (find_name id names) [
  | some name ↦ name
  | none ↦ literal "ID " ++ print_int id
]

-- The target's label is up to date, or there is no target.
abbrev pub IsLabelled : Logic → Type 0
IsLabelled l = l.target_id ≢ negsuc 0 → l.target_name ≡ label l.target_id l.player_names

step-IsLabelled : (e : Event) (l : Logic) → IsLabelled l → IsLabelled (step e l).0
unfolding step on_command on_server_message on_spectating_player on_player_name clear_spectating
    reset_session
step-IsLabelled (command text recording now) l h = ground arith
step-IsLabelled (name_of id name) l h =
    ground (arith, find_name-put_name id l.target_id name l.player_names)
step-IsLabelled e l h = ground arith

run-IsLabelled_from : (es : List Event) (l : Logic) → IsLabelled l → IsLabelled (run es l)
unfolding run
run-IsLabelled_from [] l h = h
run-IsLabelled_from (e ∷ es) l h = run-IsLabelled_from es (step e l).0 (step-IsLabelled e l h)

-- After any history with a player watched, the target's name is the one that the map of names
-- holds for that player then, or "ID " and the number where it holds none.
pub run-IsLabelled :
    (admin : Text) (es : List Event)
    → (run es (logic admin)).target_id ≢ negsuc 0
    → (run es (logic admin)).target_name
      ≡ label (run es (logic admin)).target_id (run es (logic admin)).player_names
unfolding logic
run-IsLabelled admin es = run-IsLabelled_from es (logic admin) (λ h. absurd (h refl))
