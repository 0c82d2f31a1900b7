-- ===== src/Grecord/ClientTests.antt =====
-- The theorems about the pipe's client, the settings of the interface and the start of the recorder at
-- concrete inputs.
use gambit_record.Common.{
  drop, ◌++◌, ◌&&◌, All, Ending, append-nil, append_assoc, ap, ◌∙◌, ℕ, zero, suc, ◌*◌, ◌-◌, ◌+◌,
  Bool, true, false, not, ◌==◌, List, [], ◌∷◌, Option, none, some, if◌then◌else◌, ltb, ◌≤◌, length,
  Text, same_text, same_text_refl, decimal, ◌≡◌, refl, subst, sym, arith,
}
use gambit_record.Recorder.Main.{Host, wmain}
use gambit_record.Grecord.IpcClient.{Json, IsJson, answered, request, wire}
use gambit_record.Grecord.IpcClient.Exchange.{request-answered, sent}
use gambit_record.Grecord.UiConfig.Settings.{
  Float, IsFloat, Point, Settings, no_file, default_settings, load_settings, save_settings,
}
use gambit_record.Grecord.Logic.{logic}
use gambit_record.Grecord.Plugin.{Plugin, no_prompt, recording_page}
use gambit_record.Grecord.Hud.{Hud, Frame, render_hud}
use gambit_record.Grecord.Hud.Placed.{Shown, render_hud-OnScreen}
use gambit_record.Grecord.UiConfig.Saved.{IsChecked, load_settings-IsChecked}
use gambit_record.Grecord.Game.{Memory, set_game_cursor, write_memory, write_all}
use gambit_record.Grecord.Game.Cursor.{Drawn, Unlocked, draw, IsOriginal, draw-IsOriginal}
use gambit_record.Grecord.Worker.{pipe_name, command_line}
use gambit_record.Grecord.Worker.Launch.{launch_worker-serves}
use gambit_record.Grecord.Worker.Split.{IsPlain, IsUnquoted, IsSplit}

-- Truth values that are written as one digit.
abbrev parse_digit : Text → Option Bool
parse_digit [] = none
parse_digit (c ∷ s) = some (c == 49)

abbrev digits : Json Bool
digits = record {
  parse = parse_digit;
  dump = λ b. (if b then 49 else 48) ∷ [];
  protocol = λ b. 1;
  with_protocol = λ b. b;
}

digits_line : (b : Bool) → (if ((if b then 49 else 48) == 10) then true else false) ≡ false
digits_line true = refl
digits_line false = refl

digits_parse : (b : Bool) → parse_digit ((if b then 49 else 48) ∷ []) ≡ some b
digits_parse true = refl
digits_parse false = refl

digits-IsJson : IsJson digits
digits-IsJson = record {
  one_line = digits_line;
  parse_dump = digits_parse;
  protocol_set = λ b. refl;
}

-- The request comes in two parts.
request-answered_example :
    request digits true true
      (some (length (wire digits true)))
      (sent digits false false (λ b. some (not b)) ((49 ∷ []) ∷ (10 ∷ []) ∷ []) ∷ [])
      true
    ≡ answered false
request-answered_example =
    request-answered digits digits-IsJson (λ b. some (not b)) false false true false
      ((49 ∷ []) ∷ (10 ∷ []) ∷ [])
      (sent digits false false (λ b. some (not b)) ((49 ∷ []) ∷ (10 ∷ []) ∷ []) ∷ []) (omega arith)
      refl refl (omega arith) refl

-- Fractions that are not negative; one over 0 is not finite.
abbrev Fraction : Type 0
Fraction = ℕ × ℕ

abbrev fractions : Float Fraction
fractions = record {
  fraction = λ a b. (a, b);
  add = λ p q. (p.0 * q.1 + q.0 * p.1, p.1 * q.1);
  sub = λ p q. (p.0 * q.1 - q.0 * p.1, p.1 * q.1);
  mul = λ p q. (p.0 * q.0, p.1 * q.1);
  div = λ p q. (p.0 * q.1, p.1 * q.0);
  lt = λ p q. ltb (p.0 * q.1) (q.0 * p.1);
  is_finite = λ p. not (p.1 == 0);
}

ltb_irrefl : (n : ℕ) → ltb n n ≡ false
ltb_irrefl n = ground arith

ltb_asymm : (m n : ℕ) → ltb m n ≡ true → ltb n m ≡ false
ltb_asymm m n h = ground (arith, h)

ltb_ge : (m n : ℕ) → n ≤ m → ltb m n ≡ false
ltb_ge m n h = ground (arith, h)

is_positive : (n : ℕ) → 1 ≤ n → not (n == 0) ≡ true
is_positive n h = ground (arith, h)

small_finite : (y z : Fraction) → ltb (y.0 * z.1) (z.0 * y.1) ≡ true → not (y.1 == 0) ≡ true
small_finite (a, zero) (c, d) h = absurd (ground (arith, h))
small_finite (a, suc b) (c, d) h = ground arith

fractions-IsFloat : IsFloat fractions
fractions-IsFloat = record {
  lt_irrefl = λ p. ltb_irrefl (p.0 * p.1);
  lt_asymm = λ p q h. ltb_asymm (p.0 * q.1) (q.0 * p.1) h;
  between_finite = λ x y z h k l m. small_finite y z m;
  fraction_finite = λ a b h. is_positive b h;
  fraction_monotone = λ a b c d h k l. ltb_ge (a * d) (c * b) l;
}

abbrev screen : Point Fraction
screen = record { x = (1920, 1); y = (1080, 1) }

abbrev bar : Point Fraction
bar = record { x = (250, 1); y = (45, 1) }

-- The window is open and the mouse drags the bar far out of the screen.
abbrev plugin : Plugin
plugin = record {
  menu_open = true;
  reload_settings = true;
  recording = false;
  worker_online = false;
  capture_ready = false;
  start_pending = false;
  upload_percent = 0;
  uploading = false;
  server_commands = [];
  logic = logic (65 ∷ []);
  notice = [];
  last_url = [];
  record_started = none;
  prompt = no_prompt;
  dismiss_prompt = false;
  page = recording_page;
  offline_polls = 0;
  announced_upload_url = [];
}

abbrev dragged : Frame Fraction
dragged = record {
  shown = false;
  visible = true;
  hovered = true;
  clicked = true;
  down = true;
  mouse = record { x = (9000, 1); y = (5, 1) };
  size = bar;
  display = screen;
}

abbrev idle_hud : Hud Fraction
idle_hud = record { ui = default_settings fractions; dragging = false; offset = bar }

render_hud-OnScreen_example :
    Shown fractions dragged (render_hud fractions dragged plugin idle_hud).1
render_hud-OnScreen_example =
    render_hud-OnScreen fractions fractions-IsFloat dragged plugin idle_hud

abbrev wide : Settings Fraction
wide = record (default_settings fractions) { scale = (5, 1); custom_position = true }

load_settings-IsChecked_example :
    IsChecked fractions wide
      (load_settings fractions (save_settings fractions true true wide no_file).0).0
    × ((load_settings fractions (save_settings fractions true true wide no_file).0).1 ≡ true)
load_settings-IsChecked_example = load_settings-IsChecked fractions fractions-IsFloat wide no_file

abbrev host : Host
host = record {
  process_name = some (1 ∷ []);
  same_name = same_text;
  processes = [];
  runs = λ pid. pid == 77;
  mutex = some false;
  comes_up = true;
}

-- `wcstoul` on the one number that it is called with.
abbrev wcstoul : Text → ℕ
wcstoul t = if same_text t (decimal 77) then 77 else 0

wcstoul-decimal : wcstoul (decimal 77) ≡ 77
wcstoul-decimal =
    subst (λ b. ◌≡◌ {A = ℕ} (if b then 77 else 0) 77) (sym (same_text_refl (decimal 77))) refl

-- Words between blanks; a quote begins or ends a part in which a blank is a byte like others.
tokens : Bool → Text → Text → List Text
tokens quoted word [] = word ∷ []
tokens quoted word (c ∷ s) =
    let toggled = tokens (not quoted) word s in
    let ended = tokens false [] s in
    let longer = tokens quoted (word ++ c ∷ []) s in
    if c == 34 then toggled else if not quoted && c == 32 then word ∷ ended else longer

abbrev split : Text → List Text
split line = tokens false [] line

tokens-plain :
    (word w rest : Text)
    → All IsPlain w
    → tokens false word (w ++ 32 ∷ rest) ≡ (word ++ w) ∷ tokens false [] rest
unfolding tokens
tokens-plain word [] rest h = ap (λ t. t ∷ tokens false [] rest) (sym (append-nil word))
tokens-plain word (c ∷ w) rest h =
    rw (h.0.1, h.0.0)
      (tokens-plain (word ++ c ∷ []) w rest h.1
        ∙ ap (λ t. t ∷ tokens false [] rest) (append_assoc word (c ∷ []) w))

tokens-program :
    (word w rest : Text)
    → All IsUnquoted w
    → tokens true word (w ++ 34 ∷ 32 ∷ rest) ≡ (word ++ w) ∷ tokens false [] rest
unfolding tokens
tokens-program word [] rest h = ap (λ t. t ∷ tokens false [] rest) (sym (append-nil word))
tokens-program word (c ∷ w) rest h = rw h.0 (
    tokens-program (word ++ c ∷ []) w rest h.1
    ∙ ap (λ t. t ∷ tokens false [] rest) (append_assoc word (c ∷ []) w))

tokens-quoted :
    (word w : Text) → All IsUnquoted w → tokens true word (w ++ 34 ∷ []) ≡ (word ++ w) ∷ []
unfolding tokens
tokens-quoted word [] h = ap (λ t. t ∷ []) (sym (append-nil word))
tokens-quoted word (c ∷ w) h =
    rw h.0 (tokens-quoted (word ++ c ∷ []) w h.1 ∙ ap (λ t. t ∷ []) (append_assoc word (c ∷ []) w))

All-append_one : (v : Text) (d : ℕ) → All IsUnquoted v → IsUnquoted d → All IsUnquoted (v ++ d ∷ [])
All-append_one [] d h k = (k, tt)
All-append_one (c ∷ v) d h k = (h.0, All-append_one v d h.1 k)

All-shape : (w : Text) → Ending IsPlain w → All IsPlain w
All-shape w e = subst (All IsPlain) (sym e.shape) (append e.front e.last e.front_holds e.last_holds)
  where
    append : (v : Text) (d : ℕ) → All IsPlain v → IsPlain d → All IsPlain (v ++ d ∷ [])
    append [] d h k = (k, tt)
    append (c ∷ v) d h k = (h.0, append v d h.1 k)

split-IsSplit : IsSplit split split
unfolding tokens
split-IsSplit = record {
  program = λ w rest h. tokens-program [] w rest h;
  word = λ w rest e. tokens-plain [] w rest (All-shape w e);
  quoted = λ v d h k. tokens-quoted [] (v ++ d ∷ []) (All-append_one v d h k.1);
}

launch_worker-serves_example :
    wmain wcstoul host (drop 1 (split (command_line (67 ∷ 58 ∷ 32 ∷ []) 77)))
    ≡ record { code = 0; served = some (record { parent_pid = 77; pipe = pipe_name 77 }) }
launch_worker-serves_example =
    launch_worker-serves split split wcstoul host (67 ∷ 58 ∷ 32 ∷ []) (1 ∷ []) 77 split-IsSplit
      (refl, (refl, (refl, tt))) wcstoul-decimal (omega arith) refl refl refl refl

abbrev unlocked : ℕ → Bool
unlocked address = true

-- The second frame with a window cannot write the code.
abbrev frames : List Drawn
frames = (true, unlocked) ∷ (true, λ a. false) ∷ (false, unlocked) ∷ (true, unlocked) ∷ []

abbrev game : Memory
game = write_all unlocked (set_game_cursor false) (λ a. 0)

unlocked-Unlocked : Unlocked unlocked
unlocked-Unlocked = record { first = refl; second = refl; third = refl }

game-IsOriginal : IsOriginal game
unfolding set_game_cursor write_all write_memory
game-IsOriginal = (refl, (refl, (refl, (refl, (refl, (refl, (refl, (refl, (refl, (refl, tt))))))))))

draw-IsOriginal_example : IsOriginal (draw frames unlocked false game)
draw-IsOriginal_example =
    draw-IsOriginal frames unlocked game
      (
        λ _. unlocked-Unlocked,
        (
          (λ e. absurd (ground (arith, e))),
          ((λ _. unlocked-Unlocked), ((λ _. unlocked-Unlocked), tt)),
        ),
      )
      unlocked-Unlocked game-IsOriginal
