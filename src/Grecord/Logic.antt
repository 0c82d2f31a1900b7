-- ===== src/Grecord/Logic.antt =====
-- grecord/src/Logic.cpp and grecord/include/grecord/Logic.hpp: the plugin's decisions. Texts are
-- UTF-8 bytes; a time point of the steady clock is a number of milliseconds.
pub mod Reason
pub mod Session
pub mod Target
use gambit_record.Common.{
  ℕ, zero, suc, ◌+◌, ◌-◌, ◌*◌, Bool, true, false, ◌&&◌, ◌||◌, not, List, [], ◌∷◌, ◌++◌, map, Option,
  none, some, ltb, leb, ◌==◌, if◌then◌else◌, length, drop, ℤ, pos, negsuc, eqb_ℤ, Text, same_text,
  is_empty, starts_with, decimal, literal,
}

pub data Action : Type 0 where
  idle open_settings start_recording stop_and_upload stop_local show_start_prompt : Action
  show_finish_prompt show_missing_evidence : Action

pub record Punishment : Type 0 where
  pub command : Text
  pub reason : Text
  pub sent_at : ℕ

pub record Logic : Type 0 where
  pub admin : Text
  pub player_names : List (ℤ × Text)
  pub pending : Option Punishment
  pub target_id : ℤ
  pub target_name : Text
  pub confirmed_command : Text
  pub confirmed_reason : Text
  pub spectate_prompt_shown : Bool

unfoldable pub logic : Text → Logic
logic admin = record {
  admin = admin;
  player_names = [];
  pending = none;
  target_id = negsuc 0;
  target_name = [];
  confirmed_command = [];
  confirmed_reason = [];
  spectate_prompt_shown = false;
}

-- `tolower` of the C locale, on the bytes below 128.
abbrev to_lower : ℕ → ℕ
to_lower c = if leb b'A' c && leb c b'Z' then c + 32 else c

unfoldable pub lower_ascii : Text → Text
lower_ascii = map to_lower

abbrev is_blank : ℕ → Bool
is_blank c = c == 0x20 || c == 0x09 || c == 0x0d || c == 0x0a

unfoldable pub first_word : Text → Text
first_word [] = []
first_word (c ∷ s) = if is_blank c then [] else c ∷ first_word s

-- `s.find(p) != npos`.
unfoldable pub contains : Text → Text → Bool
contains [] p = starts_with [] p
contains (c ∷ s) p = starts_with (c ∷ s) p || contains s p

ends_with_admin : Text → Text → Bool
unfolding literal
ends_with_admin message admin =
    let suffix = literal "// " ++ admin in
    not (is_empty admin)
    && leb (length suffix) (length message)
    && same_text (drop (length message - length suffix) message) suffix

any_equal : Text → List Text → Bool
any_equal word [] = false
any_equal word (n ∷ names) = same_text n word || any_equal word names

any_in : Text → List Text → Bool
unfolding contains
any_in message [] = false
any_in message (p ∷ phrases) = contains message p || any_in message phrases

punishment_names : List Text
unfolding literal
punishment_names =
    literal "/ban" ∷ literal "/mute" ∷ literal "/jail" ∷ literal "/bmute" ∷ literal "/accban" ∷ []

unfoldable pub is_punishment_command : Text → Bool
unfolding lower_ascii first_word any_equal punishment_names
is_punishment_command command = any_equal (lower_ascii (first_word command)) punishment_names

-- `find(' ', cursor)` and `find_first_not_of(' ', cursor)`, on the text from the cursor on; `none`
-- is `npos`.
find_space : Text → Option Text
find_space [] = none
find_space (c ∷ s) = if c == 0x20 then some (c ∷ s) else find_space s

skip_spaces : Text → Option Text
skip_spaces [] = none
skip_spaces (c ∷ s) = if c == 0x20 then skip_spaces s else some (c ∷ s)

infixl 5 ◌>>=◌
abbrev ◌>>=◌ : Option Text → (Text → Option Text) → Option Text
none >>= f = none
some a >>= f = f a

reason_from : Text → Option Text
unfolding find_space skip_spaces
reason_from command = do
  first ← find_space command
  id ← skip_spaces first
  second ← find_space id
  duration ← skip_spaces second
  third ← find_space duration
  skip_spaces third

abbrev or_empty : Option Text → Text
or_empty none = []
or_empty (some s) = s

unfoldable pub punishment_reason : Text → Text
unfolding reason_from
punishment_reason command = or_empty (reason_from command)

administrator : Text
unfolding literal
administrator = literal "Администратор "

phrases : List Text
unfolding literal
phrases =
    literal "заблокировал"
    ∷ literal "заблокировала"
    ∷ literal "выдал мут"
    ∷ literal "выдала мут"
    ∷ literal "заглушил"
    ∷ literal "заглушила"
    ∷ literal "посадил"
    ∷ literal "посадила"
    ∷ literal "заблокировал OOC"
    ∷ literal "заблокировал IC"
    ∷ []

unfoldable pub confirms_punishment : Text → Text → Bool
unfolding administrator phrases any_in ends_with_admin literal
confirms_punishment message admin =
    starts_with message administrator
    && any_in message phrases
    && ((not (is_empty admin) && starts_with message (administrator ++ admin ++ literal " "))
        || ends_with_admin message admin)

-- `{:02}` and `{:04}` of a number.
pad : ℕ → Text → Text
pad width digits = zeros (width - length digits) digits
  where
    zeros : ℕ → Text → Text
    zeros zero s = s
    zeros (suc n) s = b'0' ∷ zeros n s

unfoldable pub upload_announcement : Text → ℕ → ℕ → ℕ → ℕ → ℕ → Text
unfolding literal pad
upload_announcement target day month year hour minute =
    literal "/a Отправил запись слежки за "
    ++ ((if is_empty target then literal "неизвестным игроком" else target)
        ++ (literal " | "
            ++ (pad 2 (decimal day)
                ++ (literal "."
                    ++ (pad 2 (decimal month)
                        ++ (literal "."
                            ++ (pad 4 (decimal year)
                                ++ (literal " | "
                                    ++ (pad 2 (decimal hour)
                                        ++ (literal ":"
                                            ++ (pad 2 (decimal minute) ++ literal ".")))))))))))

unfoldable pub on_command : Text → Bool → ℕ → Logic → Logic × Action
unfolding lower_ascii first_word literal
on_command command recording now l =
    let word = lower_ascii (first_word command) in
    if same_text word (literal "/grecord") || same_text word (literal "/esettings")
    then (l, open_settings)
    else if same_text word (literal "/estart")
    then (l, start_recording)
    else if same_text word (literal "/estop")
    then (l, if recording then stop_local else idle)
    else if is_punishment_command command
    then (
      record l {
        pending =
            some (record { command = command; reason = punishment_reason command; sent_at = now });
      },
      idle,
    )
    else (l, idle)

-- Thirty seconds.
abbrev pub confirm_window : ℕ
confirm_window = 30 * 1000

-- A clock that went back gives a negative age, which is not above the window either.
unfoldable pub on_server_message : Text → Bool → ℕ → Logic → Logic × Action
on_server_message text recording now l = elim l.pending [
  | none ↦ (l, idle)
  | some p ↦
      if ltb confirm_window (now - p.sent_at)
      then (record l { pending = none }, idle)
      else if not (confirms_punishment text l.admin)
      then (l, idle)
      else (
        record l { confirmed_command = p.command; confirmed_reason = p.reason; pending = none },
        if recording then show_finish_prompt else show_missing_evidence,
      )
]

-- `player_names_.find(id)` and `player_names_[id] = name`.
unfoldable pub find_name : ℤ → List (ℤ × Text) → Option Text
find_name id [] = none
find_name id ((i, name) ∷ rest) = if eqb_ℤ i id then some name else find_name id rest

unfoldable pub put_name : ℤ → Text → List (ℤ × Text) → List (ℤ × Text)
put_name id name [] = (id, name) ∷ []
put_name id name ((i, old) ∷ rest) =
    if eqb_ℤ i id then (i, name) ∷ rest else (i, old) ∷ put_name id name rest

-- `std::to_string(int)`.
unfoldable pub print_int : ℤ → Text
print_int (pos n) = decimal n
print_int (negsuc n) = b'-' ∷ decimal (suc n)

unfoldable pub on_spectating_player : ℤ → Bool → Logic → Logic × Action
on_spectating_player id recording l =
    let named = record l {
      target_id = id;
      target_name = elim (find_name id l.player_names) [
        | some name ↦ name
        | none ↦ literal "ID " ++ print_int id
      ];
    } in
    if not recording && not l.spectate_prompt_shown
    then (record named { spectate_prompt_shown = true }, show_start_prompt)
    else (named, idle)

unfoldable pub on_player_name : ℤ → Text → Logic → Logic
on_player_name id nickname l =
    let l' = record l { player_names = put_name id nickname l.player_names } in
    if eqb_ℤ id l.target_id then record l' { target_name = nickname } else l'

unfoldable pub clear_spectating : Logic → Logic
clear_spectating l = record l { target_id = negsuc 0; target_name = [] }

unfoldable pub reset_session : Logic → Logic
reset_session l = record l {
  pending = none;
  target_id = negsuc 0;
  target_name = [];
  confirmed_command = [];
  confirmed_reason = [];
  spectate_prompt_shown = false;
}

unfoldable pub set_admin : Text → Logic → Logic
set_admin nickname l = record l { admin = nickname }
