-- ===== src/Grecord/Window/Saving.antt =====
-- The settings page of grecord/src/Plugin.cpp over the recorder of recorder/src/app/Application.cpp.
use gambit_record.Common.{
  ℕ, ◌≤◌, ◌%◌, ◌^◌, Bool, true, false, not, Option, some, ◌==◌, if◌then◌else◌, literal, arith, ◌≡◌,
  refl, ap, ◌∙◌,
}
use gambit_record.Recorder.Config.{Config}
use gambit_record.Recorder.Pipeline.{Pipeline}
use gambit_record.Recorder.Application.Requests.{
  object, assign, exclude, flag_or, number_or, assign_limit, assign_microphone, assign_audio,
  assign_settings,
}
use gambit_record.Recorder.Application.Dispatch.{
  Answer, World, on_settings_set, applied, status, switches,
}
use gambit_record.Grecord.Window.{Form, form_settings, reload, page_status}

-- What the exclusion of the two sources makes of the three choices.
source_again :
    (n : ℕ)
    → n ≤ 2
    → (if (if n == 2 then true else if n == 1 then false else n == 2)
        then 2
        else if (if n == 2 then false else n == 1)
        then 1
        else 0)
      ≡ n
source_again n h = ground (arith, h)

-- The recorder behind the request of a form.
abbrev pub saved : World → Form → Pipeline → Pipeline
saved w f p = (on_settings_set w p (some (object (form_settings f)))).0

config_of : Form → Config → Config
config_of f c = record c {
  broker = record c.broker { enabled = f.youtube };
  audio = record c.audio {
    enabled = if f.audio_source == 2 then false else f.audio_source == 1;
    microphone =
        if f.audio_source == 2
        then true
        else if f.audio_source == 1
        then false
        else f.audio_source == 2;
  };
  recording = record c.recording { archive_limit_gb = f.archive % 2 ^ 32 };
}

assign_settings-form :
    (f : Form) (c : Config) → assign_settings (form_settings f) c ≡ (config_of f c, true)
unfolding assign_settings assign_audio assign_microphone assign_limit assign exclude flag_or
    number_or form_settings literal config_of
assign_settings-form f c = refl

applied-config :
    (w : World) (p : Pipeline) (c : Config) → (applied w p (c, true)).0.application.config ≡ c
unfolding applied
applied-config w p c = choose (not w.config_writes) _ _ refl refl
  where
    choose :
        (b : Bool) (x y : Pipeline × Option Answer)
        → x.0.application.config ≡ c
        → y.0.application.config ≡ c
        → (if b then x else y).0.application.config ≡ c
    choose true x y h k = h
    choose false x y h k = k

saved-config :
    (w : World) (f : Form) (p : Pipeline)
    → (saved w f p).application.config ≡ config_of f p.application.config
unfolding on_settings_set
saved-config w f p =
    ap (λ (r : Config × Bool). (applied w p r).0.application.config)
      (assign_settings-form f p.application.config)
    ∙ applied-config w p (config_of f p.application.config)

-- After a form with one of the three sources is sent to the recorder, whether its configuration can be
-- written or not, the page that is opened on the recorder's next status shows the form's switch and
-- source, and always 20 gigabytes, while the recorder has the form's limit.
pub reload-saved :
    (w : World) (f : Form) (p : Pipeline)
    → f.audio_source ≤ 2
    → (reload (page_status (status w (saved w f p))) ≡ record {
      youtube = f.youtube;
      audio_source = f.audio_source;
      archive = 20;
      dirty = false;
    })
      × ((saved w f p).application.config.recording.archive_limit_gb ≡ f.archive % 2 ^ 32)
unfolding reload page_status status switches config_of
reload-saved w f p h = (
  ap
        (λ (c : Config). record {
          youtube = c.broker.enabled;
          audio_source = if c.audio.microphone then 2 else if c.audio.enabled then 1 else 0;
          archive = 20;
          dirty = false;
        })
        (saved-config w f p)
      ∙ ap
          (λ (n : ℕ). record { youtube = f.youtube; audio_source = n; archive = 20; dirty = false })
          (source_again f.audio_source h),
  ap (λ (c : Config). c.recording.archive_limit_gb) (saved-config w f p),
)
