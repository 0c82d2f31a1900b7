-- ===== src/Grecord/IpcClient.antt =====
-- grecord/src/IpcClient.cpp and include/grecord/IpcClient.hpp: one request to the recorder. The JSON
-- library is an interface, with what it documents as laws; what the pipe's calls return is a
-- parameter.
pub mod Exchange
use gambit_record.Common.{
  ℕ, Bool, true, false, not, ◌||◌, List, [], ◌∷◌, ◌++◌, Option, none, some, ltb, ◌==◌,
  if◌then◌else◌, length, Text, ◌≡◌, ◌*◌,
}

-- The library's `parse` and `dump`, the member `protocol`, and its setting to 1.
pub record Json {ℓ} (J : Type ℓ) : Type ℓ where
  pub parse : Text → Option J
  pub dump : J → Text
  pub protocol : J → ℕ
  pub with_protocol : J → J

abbrev pub has_newline : Text → Bool
has_newline [] = false
has_newline (c ∷ s) = if c == 10 then true else has_newline s

-- `dump` without an indentation writes one line, which `parse` reads back.
pub record IsJson {ℓ} {J : Type ℓ} (json : Json J) : Type ℓ where
  pub one_line : (j : J) → has_newline (json.dump j) ≡ false
  pub parse_dump : (j : J) → json.parse (json.dump j) ≡ some j
  pub protocol_set : (j : J) → json.protocol (json.with_protocol j) ≡ 1

abbrev pub max_response : ℕ
max_response = 64 * 1024

-- The results of the reads from the pipe, up to the one that fails or gets nothing.
unfoldable pub read_response : List Text → Text → Text
read_response [] response = response
read_response (got ∷ reads) response =
    let more = read_response reads (response ++ got) in
    if not (ltb (length response) max_response)
    then response
    else if has_newline (response ++ got)
    then response ++ got
    else more

unfoldable pub first_line : Text → Text
first_line [] = []
first_line (c ∷ s) = if c == 10 then [] else c ∷ first_line s

pub data Answered {ℓ} (J : Type ℓ) : Type ℓ where
  worker_offline ipc_write_failed invalid_worker_response : Answered J
  answered : J → Answered J

module _ {ℓ} {J : Type ℓ} (json : Json J) where
  abbrev pub wire : J → Text
  wire message = json.dump (json.with_protocol message) ++ 10 ∷ []

  abbrev pub parsed : Option J → Answered J
  parsed none = invalid_worker_response
  parsed (some j) = answered j

  abbrev pub wrote_all : Option ℕ → Text → Bool
  wrote_all none bytes = false
  wrote_all (some n) bytes = n == length bytes

  -- Whether the pipe is there and opens, how many bytes are written, and what is read.
  unfoldable pub request : Bool → Bool → Option ℕ → List Text → J → Answered J
  request waits opens written reads message =
      if not waits || not opens
      then worker_offline
      else if not (wrote_all written (wire message))
      then ipc_write_failed
      else parsed (json.parse (first_line (read_response reads [])))
