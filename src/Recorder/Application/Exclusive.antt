-- ===== src/Recorder/Application/Exclusive.antt =====
-- The microphone and the sound of the game: recorder/src/app/Application.cpp, settings_set.
use gambit_record.Common.{
  pos, literal, Bool, true, false, ◌&&◌, List, Option, none, some, if◌then◌else◌, Text, arith, ◌≡◌,
}
use gambit_record.Recorder.Config.{Config}
use gambit_record.Recorder.Config.File.{find}
use gambit_record.Recorder.Application.Requests.{
  flag_or, number_or, assign_limit, assign_microphone, assign_audio, Scalar, assign, exclude,
  assign_settings,
}

abbrev Excludes : Config × Bool → Type 0
Excludes r = r.1 ≡ true → (r.0.audio.microphone && r.0.audio.enabled) ≡ false

assign-Excludes {ℓ} :
    {A : Type ℓ} (o : Option A) (c : Config) (next : A → Config × Bool)
    → ((a : A) → Excludes (next a))
    → Excludes (assign o c next)
unfolding assign
assign-Excludes none c next h = λ e. absurd (ground (arith, e))
assign-Excludes (some a) c next h = h a

both_off :
    (m e : Bool)
    → ((if m then true else if e then false else m) && (if m then false else e)) ≡ false
both_off m e = ground arith

assign_limit-Excludes :
    (values : List (Text × Scalar)) (c : Config)
    → (c.audio.microphone && c.audio.enabled) ≡ false
    → Excludes (assign_limit values c)
unfolding assign_limit
assign_limit-Excludes values c h =
    assign-Excludes
      (number_or (pos c.recording.archive_limit_gb) (find (literal "archive_limit_gb") values)) c _
      (λ limit _. h)

assign_microphone-Excludes :
    (values : List (Text × Scalar)) (c : Config) → Excludes (assign_microphone values c)
unfolding assign_microphone exclude
assign_microphone-Excludes values c =
    assign-Excludes (flag_or c.audio.microphone (find (literal "microphone_enabled") values)) c _
      (λ on.
        assign_limit-Excludes values
          (exclude (record c { audio = record c.audio { microphone = on } }))
          (both_off on c.audio.enabled))

assign_audio-Excludes :
    (values : List (Text × Scalar)) (c : Config) → Excludes (assign_audio values c)
unfolding assign_audio
assign_audio-Excludes values c =
    assign-Excludes (flag_or c.audio.enabled (find (literal "audio_enabled") values)) c _ (λ on.
      assign_microphone-Excludes values (record c { audio = record c.audio { enabled = on } }))

-- Where the members of the settings have the types that the code reads, the settings that are left do
-- not have the microphone and the sound of the game both on.
pub assign_settings-excludes :
    (values : List (Text × Scalar)) (c : Config)
    → (assign_settings values c).1 ≡ true
    → ((assign_settings values c).0.audio.microphone && (assign_settings values c).0.audio.enabled)
      ≡ false
unfolding assign_settings
assign_settings-excludes values c =
    assign-Excludes (flag_or c.broker.enabled (find (literal "youtube_enabled") values)) c
      (λ on. assign_audio values (record c { broker = record c.broker { enabled = on } }))
      (λ on. assign_audio-Excludes values (record c { broker = record c.broker { enabled = on } }))
