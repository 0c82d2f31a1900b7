-- ===== src/Recorder/IpcServer.antt =====
-- recorder/src/ipc/IpcServer.cpp: the clients of the named pipe, one after the other. What the pipe's
-- calls return, the JSON parser and the handler of the commands are parameters; the security of the
-- pipe and the thread are not modelled.
pub mod Wire
use gambit_record.Common.{
  ℕ, zero, suc, ◌*◌, Bool, true, false, not, ◌&&◌, starts_with, literal, List, [], ◌∷◌, ◌++◌,
  Option, none, some, ltb, leb, ◌==◌, if◌then◌else◌, length, take, drop, Text,
}

abbrev pub max_message : ℕ
max_message = 64 * 1024

abbrev pub has_newline : Text → Bool
has_newline [] = false
has_newline (c ∷ s) = if c == 10 then true else has_newline s

-- The results of the reads from the pipe, up to the one that fails or gets nothing.
unfoldable pub read_request : List Text → Text → Text
read_request [] request = request
read_request (got ∷ reads) request =
    let more = read_request reads (request ++ got) in
    if not (ltb (length request) max_message)
    then request
    else if has_newline (request ++ got)
    then request ++ got
    else more

unfoldable pub before_newline : Text → Text
before_newline [] = []
before_newline (c ∷ s) = if c == 10 then [] else c ∷ before_newline s

-- The answers of `handle_client`: the request is refused, or the handler's.
pub data Response {ℓ} (A : Type ℓ) : Type ℓ where
  bad_request : Response A
  protocol_mismatch : Response A
  handled : A → Response A

-- The names that the constructor accepts.
unfoldable pub is_pipe_name : Text → Bool
unfolding literal
is_pipe_name name =
    starts_with name (literal "\\\\.\\pipe\\GambitRecord-") && not (ltb 240 (length name))

-- One round of `run`: the pipe is created, a client connects, and no stop is requested meanwhile.
pub data Round : Type 0 where
  not_created : Round
  created : Bool → Bool → Round

-- The number of the clients that are handled, and whether the loop ended because a pipe could not be
-- created. The list ends where the request to stop is seen.
unfoldable pub run : List Round → ℕ × Bool
run [] = (0, false)
run (not_created ∷ rest) = (0, true)
run (created connected stopping ∷ rest) =
    let later = run rest in if connected && not stopping then (suc later.0, later.1) else later

module _ {ℓ κ} {J : Type ℓ} {A : Type κ} where
  answer_of : (J → ℕ) → (J → Option A) → Option J → Response A
  answer_of protocol handler none = bad_request
  answer_of protocol handler (some j) =
      if not (protocol j == 1)
      then protocol_mismatch
      else elim (handler j) [ none ↦ bad_request | some a ↦ handled a ]

  -- The parser and the handler may throw.
  unfoldable pub handle_request : (Text → Option J) → (J → ℕ) → (J → Option A) → Text → Response A
  unfolding answer_of
  handle_request parse protocol handler request =
      if leb max_message (length request)
      then bad_request
      else answer_of protocol handler (parse (before_newline request))

-- What was sent, and whether all was. A write returns how many bytes it took, or fails.
unfoldable pub write_all : List (Option ℕ) → Text → Text × Bool
write_all writes [] = ([], true)
write_all [] (c ∷ bytes) = ([], false)
write_all (none ∷ writes) (c ∷ bytes) = ([], false)
write_all (some zero ∷ writes) (c ∷ bytes) = ([], false)
write_all (some (suc n) ∷ writes) (c ∷ bytes) =
    let more = write_all writes (drop n bytes) in (c ∷ (take n bytes ++ more.0), more.1)
