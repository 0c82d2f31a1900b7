-- ===== src/Grecord/Worker.antt =====
-- grecord/src/Plugin.cpp, launch_worker and pipe_name: how the plugin starts the recorder. Paths are
-- texts; whether the program is there and starts is a parameter.
pub mod Launch
pub mod Split
use gambit_record.Common.{
  ℕ, Bool, true, false, not, List, [], ◌∷◌, ◌++◌, Option, none, some, if◌then◌else◌, Text, literal,
  decimal,
}

unfoldable pub pipe_name : ℕ → Text
unfolding literal
pipe_name pid = literal "\\\\.\\pipe\\GambitRecord-" ++ decimal pid

unfoldable pub command_line : Text → ℕ → Text
unfolding literal pipe_name
command_line worker pid =
    literal "\""
    ++ (worker
        ++ (literal "\" --parent-pid "
            ++ (decimal pid ++ (literal " --pipe \"" ++ (pipe_name pid ++ literal "\"")))))

-- What launch_worker does: the notice, or the command that Windows is given, and its result.
pub data Launched : Type 0 where
  missing : Text → Launched
  launched : Text → Bool → Launched

unfoldable pub launch_worker : Bool → Bool → Text → ℕ → Launched
unfolding literal command_line
launch_worker exists creates worker pid =
    if not exists
    then missing (literal "GambitRecord.exe не найден в папке игры")
    else launched (command_line worker pid) creates
