-- ===== src/Grecord/Plugin/Announce.antt =====
-- The announcements of grecord/src/Plugin.cpp, status_loop.
use gambit_record.Common.{
  ℕ, suc, ◌+◌, ◌≤◌, false, List, [], ◌∷◌, length, length-append, if◌then◌else◌, Text, same_text,
  same_text_refl, arith, All, ◌≡◌, ◌⊎◌, subst, ap, ap₂, inl, inr,
}
use gambit_record.Grecord.Plugin.{
  Plugin, Reply, Status, LocalTime, start_recording_now, start_failed, queue_upload_announcement,
  updated, announce, start_if_pending, status_round,
}

-- Rounds of the loop, each with its answers.
pub record Round : Type 0 where
  pub time : LocalTime
  pub reply : Reply
  pub now : ℕ
  pub status : Status

abbrev pub run : List Round → Plugin → Plugin
run [] p = p
run (r ∷ rounds) p = run rounds (status_round r.time r.reply r.now r.status p).0

-- The round's status names no other upload than this one.
abbrev pub Names : Text → Round → Type 0
Names url r = (r.status.last_success ≡ false) ⊎ (r.status.last_url ≡ url)

-- What a plugin may still announce of the upload.
left : Text → Plugin → ℕ
left url p = if same_text url p.announced_upload_url then 0 else 1

start-keeps :
    (reply : Reply) (now : ℕ) (p : Plugin)
    → ((start_if_pending reply now p).server_commands ≡ p.server_commands)
      × ((start_if_pending reply now p).announced_upload_url ≡ p.announced_upload_url)
unfolding start_if_pending start_recording_now start_failed
start-keeps reply now p = (ground arith, ground arith)

-- The commands that are queued and the announcement that may still come.
total : Text → Plugin → ℕ
total url p = length p.server_commands + left url p

queue-length :
    (t : LocalTime) (s : Status) (p : Plugin)
    → length (queue_upload_announcement t s p).server_commands ≡ suc (length p.server_commands)
unfolding queue_upload_announcement
queue-length t s p = omega (arith, length-append {0} p.server_commands _)

own-total :
    (t : LocalTime) (s : Status) (p : Plugin)
    → total s.last_url (announce t s p) ≤ total s.last_url p
unfolding announce total left
own-total t s p = ground (arith, queue-length t s p, same_text_refl s.last_url)

announce-total :
    (url : Text) (t : LocalTime) (s : Status) (p : Plugin)
    → (s.last_success ≡ false) ⊎ (s.last_url ≡ url)
    → total url (announce t s p) ≤ total url p
unfolding announce total left
announce-total url t s p (inl h) = ground (arith, h)
announce-total url t s p (inr h) =
    subst (λ u. total u (announce t s p) ≤ total u p) h (own-total t s p)

start-total :
    (url : Text) (reply : Reply) (now : ℕ) (p : Plugin)
    → total url (start_if_pending reply now p) ≡ total url p
unfolding total left
start-total url reply now p =
    ap₂ ◌+◌ (ap length (start-keeps reply now p).0)
      (ap (λ u. if same_text url u then 0 else 1) (start-keeps reply now p).1)

round-total :
    (url : Text) (r : Round) (p : Plugin)
    → Names url r
    → total url (status_round r.time r.reply r.now r.status p).0 ≤ total url p
unfolding status_round updated total left
round-total url r p h = ground (
  arith,
  start-total url r.reply r.now (announce r.time r.status (updated r.status p)),
  announce-total url r.time r.status (updated r.status p) h,
)

run-total :
    (url : Text) (rounds : List Round) (p : Plugin)
    → All (Names url) rounds
    → total url (run rounds p) ≤ total url p
run-total url [] p h = omega arith
run-total url (r ∷ rounds) p h = omega (
  arith,
  round-total url r p h.0,
  run-total url rounds (status_round r.time r.reply r.now r.status p).0 h.1,
)

-- In any rounds whose successful status names no other upload than one, at most one announcement
-- is queued, and none where that upload is the one that was announced last.
pub run-announces :
    (url : Text) (rounds : List Round) (p : Plugin)
    → All (Names url) rounds
    → length (run rounds p).server_commands
      ≤ length p.server_commands + (if same_text url p.announced_upload_url then 0 else 1)
unfolding total left
run-announces url rounds p h = omega (arith, run-total url rounds p h)
