-- ===== src/Recorder/Main.antt =====
-- recorder/src/main.cpp: the arguments of the command line, behind the program's name, and `wmain`.
-- `wcstoul`, the comparison of names and what Windows answers are parameters; a wide string is its
-- UTF-8 text.
use gambit_record.Common.{
  ℕ, Bool, true, false, not, ◌&&◌, List, [], ◌∷◌, ◌++◌, Option, none, some, ◌==◌, if◌then◌else◌,
  Text, literal, same_text, decimal, is_empty,
}

pub record Arguments : Type 0 where
  pub parent_pid : ℕ
  pub pipe : Text

unfoldable pub parse_arguments : (Text → ℕ) → List Text → Arguments → Arguments
unfolding literal
parse_arguments wcstoul [] r = r
parse_arguments wcstoul (value ∷ []) r = r
parse_arguments wcstoul (value ∷ next ∷ rest) r =
    let with_pid = parse_arguments wcstoul rest (record r { parent_pid = wcstoul next }) in
    let with_pipe = parse_arguments wcstoul rest (record r { pipe = next }) in
    let later = parse_arguments wcstoul (next ∷ rest) r in
    if same_text value (literal "--parent-pid")
    then with_pid
    else if same_text value (literal "--pipe")
    then with_pipe
    else later

-- The first process of the name.
unfoldable pub find_process : (Text → Text → Bool) → List (Text × ℕ) → Text → Option ℕ
find_process same_name [] executable = none
find_process same_name (p ∷ rest) executable =
    if same_name p.0 executable then some p.1 else find_process same_name rest executable

-- What `wmain` meets: the name of the game's process in the configuration, or an exception that reading
-- it throws; the processes, and which of them run; the mutex, which may be missing or exist already;
-- whether the application comes up without an exception.
pub record Host : Type 0 where
  pub process_name : Option Text
  pub same_name : Text → Text → Bool
  pub processes : List (Text × ℕ)
  pub runs : ℕ → Bool
  pub mutex : Option Bool
  pub comes_up : Bool

abbrev pub value_or : Option ℕ → ℕ → ℕ
value_or none n = n
value_or (some m) n = m

unfoldable pub process_running : Host → ℕ → Bool
process_running h pid = not (pid == 0) && h.runs pid

unfoldable pub default_pipe : ℕ → Text
unfolding literal
default_pipe pid = literal "\\\\.\\pipe\\GambitRecord-" ++ decimal pid

-- The exit code, and what the application served.
pub record Ended : Type 0 where
  pub code : ℕ
  pub served : Option Arguments

abbrev pub ended : ℕ → Ended
ended code = record { code = code; served = none }

-- Behind the tests of the parent: one worker for each parent.
unfoldable pub serve : Host → Arguments → Option Bool → Ended
serve h arguments none = ended 2
serve h arguments (some true) = ended 2
serve h arguments (some false) =
    if h.comes_up then record { code = 0; served = some arguments } else ended 1

unfoldable pub with_parent : Host → Arguments → Ended
unfolding serve process_running default_pipe
with_parent h arguments =
    if not (process_running h arguments.parent_pid)
    then ended 0
    else serve h
        (record arguments {
          pipe =
              if is_empty arguments.pipe then default_pipe arguments.parent_pid else arguments.pipe;
        })
        h.mutex

unfoldable pub wmain_with : Host → Arguments → Option Text → Ended
unfolding find_process with_parent
wmain_with h arguments none = ended 1
wmain_with h arguments (some process) = with_parent h (record arguments {
  parent_pid =
      if arguments.parent_pid == 0
      then value_or (find_process h.same_name h.processes process) 0
      else arguments.parent_pid;
})

unfoldable pub wmain : (Text → ℕ) → Host → List Text → Ended
unfolding parse_arguments wmain_with
wmain wcstoul h args =
    wmain_with h (parse_arguments wcstoul args (record { parent_pid = 0; pipe = [] }))
      h.process_name

pub data ControlEvent : Type 0 where
  ctrl_c ctrl_break ctrl_close ctrl_logoff ctrl_shutdown : ControlEvent

-- The new value of `g_stop`, and whether the event was handled.
unfoldable pub console_handler : ControlEvent → Bool → Bool × Bool
console_handler ctrl_c g_stop = (true, true)
console_handler ctrl_break g_stop = (true, true)
console_handler ctrl_close g_stop = (true, true)
console_handler ctrl_shutdown g_stop = (true, true)
console_handler ctrl_logoff g_stop = (g_stop, false)

-- One round of the watcher: whether it goes on, by the request to stop its thread, `g_stop` and the
-- parent. It asks the application to stop behind the last.
pub record Watched : Type 0 where
  pub stop_requested : Bool
  pub g_stop : Bool
  pub parent_runs : Bool

-- Whether the application has been asked to stop within these rounds.
unfoldable pub watcher : List Watched → Bool
watcher [] = false
watcher (w ∷ rest) =
    if not w.stop_requested && not w.g_stop && w.parent_runs then watcher rest else true
