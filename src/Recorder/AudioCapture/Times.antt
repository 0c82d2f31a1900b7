-- ===== src/Recorder/AudioCapture/Times.antt =====
-- The times of the samples of recorder/src/audio/WasapiCapture.cpp.
use gambit_record.Common.{
  ℕ, ◌*◌, Bool, true, List, [], ◌∷◌, ◌++◌, ℤ, pos, ◌+ℤ◌, Text, ◌≡◌, refl, if◌then◌else◌,
  append_assoc, append-nil, replicate, sym, ◌∙◌,
}
use gambit_record.Recorder.AudioCapture.{
  AudioCapture, PcmSample, Packet, packet, duration_of, encode_pcm, run, channels,
}

-- Packets without a time of the device, all of which the encoder takes.
pub data Untimed : List Packet → Type 0 where
  empty : Untimed []
  add :
      {frames : ℕ} {silent : Bool} {bytes : Text} {rest : List Packet}
      → Untimed rest
      → Untimed (packet frames silent bytes (pos 0) true ∷ rest)

-- Each sample begins where the one before ends, from the first time to the last.
abbrev pub Contiguous : ℤ → List PcmSample → ℤ → Type 0
Contiguous from [] to = to ≡ from
Contiguous from (s ∷ rest) to = (s.pts ≡ from) × Contiguous (s.pts +ℤ s.duration) rest to

-- Packets without a time of the device give samples without a gap: the new ones, behind those that
-- the encoder already took, begin at the time that was next and each at the end of the one before,
-- and the time that is next is the end of the last.
pub run-Contiguous :
    (packets : List Packet) (a : AudioCapture)
    → Untimed packets
    → (new : List PcmSample) × ((run packets a).fed ≡ a.fed ++ new)
      × Contiguous a.next_pts new (run packets a).next_pts
unfolding run encode_pcm
run-Contiguous _ a empty = ([], sym (append-nil a.fed), refl)
run-Contiguous _ a (add {frames} {silent} {bytes} {rest} h) =
    let taken = if silent then replicate (frames * channels * 2) 0 else bytes in
    let s : PcmSample = record { pts = a.next_pts; duration = duration_of frames; bytes = taken } in
    let more = run-Contiguous rest (encode_pcm true frames taken (pos 0) a) h in
    (s ∷ more.0, more.1 ∙ append_assoc a.fed (s ∷ []) more.0, (refl, more.2))
