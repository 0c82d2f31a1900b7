-- ===== src/Grecord/Worker/Launch.antt =====
-- The recorder that the plugin starts: grecord/src/Plugin.cpp, launch_worker, and recorder/src/main.cpp.
use gambit_record.Common.{
  ℕ, ◌^◌, ◌≤◌, ◌<◌, true, false, List, some, Text, literal, decimal, ◌==◌, arith, ◌≡◌, drop,
  length-decimal, All,
}
use gambit_record.Recorder.Main.{
  Host, parse_arguments, wmain, wmain_with, with_parent, serve, process_running,
}
use gambit_record.Recorder.IpcServer.{is_pipe_name}
use gambit_record.Grecord.Worker.{pipe_name, command_line}
use gambit_record.Grecord.Worker.Split.{IsUnquoted, IsSplit, command_line-parts}

-- Where the command line is split as Windows documents, the path of the recorder has no quote, `wcstoul`
-- reads a decimal number, the game runs, the configuration is read, no other worker serves this
-- process and the application comes up, the recorder that the plugin starts serves the plugin's
-- process on the plugin's pipe and ends with 0.
pub launch_worker-serves :
    (split arguments : Text → List Text) (wcstoul : Text → ℕ) (h : Host) (worker name : Text)
    (pid : ℕ)
    → IsSplit split arguments
    → All IsUnquoted worker
    → wcstoul (decimal pid) ≡ pid
    → 1 ≤ pid
    → h.runs pid ≡ true
    → h.process_name ≡ some name
    → h.mutex ≡ some false
    → h.comes_up ≡ true
    → wmain wcstoul h (drop 1 (split (command_line worker pid)))
      ≡ record { code = 0; served = some (record { parent_pid = pid; pipe = pipe_name pid }) }
unfolding wmain wmain_with with_parent serve process_running parse_arguments literal pipe_name
launch_worker-serves split arguments wcstoul h worker name pid laws plain reads positive runs named
      free up =
    simp
      (command_line-parts laws worker pid plain, reads, named, nonzero pid positive, runs, free, up)
  where
    nonzero : (n : ℕ) → 1 ≤ n → (n == 0) ≡ false
    nonzero n l = ground (arith, l)

-- The pipe of any process is one that the recorder's server accepts.
pub pipe_name-accepted : (pid : ℕ) → pid < 2 ^ 32 → is_pipe_name (pipe_name pid) ≡ true
unfolding is_pipe_name pipe_name literal
pipe_name-accepted pid h = ground (arith, length-decimal pid 9 (omega arith))
