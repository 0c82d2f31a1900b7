-- ===== src/Grecord/Plugin/Packets.antt =====
-- Memory safety of the packet path of grecord/src/Plugin.cpp.
use gambit_record.Common.{
  ℕ, Bool, true, false, Option, none, some, Text, arith, ltb, ◌==◌, if◌then◌else◌, ◌≢◌,
}
use gambit_record.Grecord.BitReader.{BitReader, reader, Outcome, done, refused, fault, RpcPayload}
use gambit_record.Grecord.BitReader.Safety.{
  IsInside, Safe, read-Safe, read_string-Safe, reader-IsInside, extract_rpc_payload-Safe,
}
use gambit_record.Grecord.Plugin.{
  Plugin, and_then, player_joined, server_message, spectating, process_rpc, incoming_rpc_hook,
}

and_then-some {ℓ} :
    {A : Type ℓ} (o : Outcome A) (p : Plugin) (k : A → BitReader → Option Plugin)
    → Safe o
    → ((a : A) (r : BitReader) → IsInside r → k a r ≢ none)
    → and_then o p k ≢ none
unfolding and_then
and_then-some (done a r) p k s h = h a r s
and_then-some (refused r) p k s h = ground arith
and_then-some fault p k s h = absurd s

if-some : (b : Bool) {x y : Option Plugin} → x ≢ none → y ≢ none → (if b then x else y) ≢ none
if-some true h k = h
if-some false h k = k

kept : (p : Plugin) → some p ≢ none
kept p = ground arith

player_joined-some :
    (utf8 : Text → Text) (bytes : Text) (p : Plugin) → player_joined utf8 bytes p ≢ none
unfolding player_joined
player_joined-some utf8 bytes p =
    and_then-some _ p _ (read-Safe 2 (reader bytes) (reader-IsInside bytes)) (λ player r s.
      and_then-some _ p _ (read-Safe 1 r s)
        (λ size r s. and_then-some _ p _ (read_string-Safe size r s) (λ name r s. kept _)))

server_message-some :
    (utf8 : Text → Text) (now : ℕ) (bytes : Text) (p : Plugin)
    → server_message utf8 now bytes p ≢ none
unfolding server_message
server_message-some utf8 now bytes p =
    and_then-some _ p _ (read-Safe 4 (reader bytes) (reader-IsInside bytes)) (λ color r s.
      and_then-some _ p _ (read-Safe 4 r s) (λ size r s.
        if-some (ltb 4096 size) (kept _)
          (and_then-some _ p _ (read_string-Safe size r s) (λ text r s. kept _))))

spectating-some :
    (player_name : ℕ → Text) (bytes : Text) (p : Plugin) → spectating player_name bytes p ≢ none
unfolding spectating
spectating-some player_name bytes p =
    and_then-some _ p _ (read-Safe 2 (reader bytes) (reader-IsInside bytes))
      (λ player r s. and_then-some _ p _ (read-Safe 1 r s) (λ camera r s. kept _))

process_rpc-some :
    (utf8 : Text → Text) (player_name : ℕ → Text) (now : ℕ) (rpc : RpcPayload) (p : Plugin)
    → process_rpc utf8 player_name now rpc p ≢ none
unfolding process_rpc
process_rpc-some utf8 player_name now rpc p =
    if-some (rpc.id == 11) (player_joined-some utf8 rpc.bytes p) (
      if-some (rpc.id == 93) (server_message-some utf8 now rpc.bytes p) (
        if-some (rpc.id == 126) (spectating-some player_name rpc.bytes p)
          (if-some (rpc.id == 78) (kept _) (kept _))))

-- Whatever a packet holds, taking it apart and handling what it carries reads no byte outside of the
-- packet or of its payload.
pub incoming_rpc_hook-some :
    (utf8 : Text → Text) (player_name : ℕ → Text) (now : ℕ) (packet : Option Text) (p : Plugin)
    → incoming_rpc_hook utf8 player_name now packet p ≢ none
unfolding incoming_rpc_hook
incoming_rpc_hook-some utf8 player_name now packet p =
    and_then-some _ p _ (extract_rpc_payload-Safe packet)
      (λ rpc r s. process_rpc-some utf8 player_name now rpc p)
