-- ===== src/Recorder/Transform.antt =====
-- The choice and the set-up of an encoder: recorder/src/video/MediaFoundationEncoder.cpp, from
-- `enumerate` to `configure`, and the members of MediaFoundationEncoder.hpp. The encoders that Media
-- Foundation lists, and what each answers, are parameters. A step gives its state and whether it
-- ended without an exception.
use gambit_record.Common.{
  ℕ, ◌*◌, ◌/◌, Bool, true, false, not, ◌&&◌, ◌||◌, List, [], ◌∷◌, Option, none, some, leb,
  if◌then◌else◌, ℤ, pos, Text, literal, is_empty, starts_with,
}
use gambit_record.Recorder.Media.{EncodedSample, StreamDescription, no_stream}

-- An encoder that `MFTEnumEx` lists, with what its calls answer.
pub record Activation : Type 0 where
  pub name : Text
  pub activates : Bool
  pub is_async : Bool
  pub takes_device : Bool
  pub configures : Bool
  pub has_stream_info : Bool
  pub sequence_header : Text

-- `name.find(part) != npos`.
abbrev pub has_part : Text → Text → Bool
has_part [] part = is_empty part
has_part (c ∷ s) part = starts_with (c ∷ s) part || has_part s part

unfoldable pub rank : Text → ℕ
unfolding literal
rank name =
    if has_part name (literal "NVIDIA")
    then 0
    else if has_part name (literal "AMD") || has_part name (literal "Advanced Micro")
    then 10
    else if has_part name (literal "Intel")
    then 20
    else 50

-- `std::stable_sort` by the rank.
unfoldable pub insert : Activation → List Activation → List Activation
insert a [] = a ∷ []
insert a (b ∷ rest) =
    let later = insert a rest in if leb (rank a.name) (rank b.name) then a ∷ b ∷ rest else b ∷ later

unfoldable pub enumerate : List Activation → List Activation
enumerate [] = []
enumerate (a ∷ rest) = insert a (enumerate rest)

-- The last member counts the calls that tell the codec to make a keyframe.
pub record Encoder : Type 0 where
  pub fps : ℕ
  pub bitrate : ℕ
  pub prefer_hardware : Bool
  pub transform : Option Activation
  pub description : StreamDescription
  pub encoder_name : Text
  pub async : Bool
  pub gpu_input : Bool
  pub configured : Bool
  pub force_keyframe : Bool
  pub last_pts : ℤ
  pub hardware : Bool
  pub need_input : Bool
  pub force_software : Bool
  pub output : List EncodedSample
  pub forced_keyframes : ℕ

unfoldable pub new_encoder : ℕ → ℕ → Bool → Encoder
unfolding literal
new_encoder fps bitrate prefer_hardware = record {
  fps = fps;
  bitrate = bitrate;
  prefer_hardware = prefer_hardware;
  transform = none;
  description = no_stream;
  encoder_name = literal "unavailable";
  async = false;
  gpu_input = false;
  configured = false;
  force_keyframe = false;
  last_pts = pos 0;
  hardware = false;
  need_input = false;
  force_software = false;
  output = [];
  forced_keyframes = 0;
}

pub data Accepted : Type 0 where
  accepted not_accepting refused : Accepted

-- The rest of what an `encode` meets; `codec_api` is whether the transform has an ICodecAPI.
pub record Machine : Type 0 where
  pub codec_api : Bool
  pub hardware : List Activation
  pub software : List Activation
  pub converts : Bool
  pub makes : Bool
  pub first : Accepted
  pub second : Accepted

unfoldable pub teardown : Encoder → Encoder
teardown e = record e {
  transform = none;
  configured = false;
  gpu_input = false;
  async = false;
  hardware = false;
  need_input = false;
}

unfoldable pub first_active : List Activation → Option Activation
first_active [] = none
first_active (a ∷ rest) = if a.activates then some a else first_active rest

unfoldable pub activated : Encoder → Option Activation → Encoder × Bool
activated e none = (e, false)
activated e (some a) = (
  record e {
    transform = some a;
    encoder_name = a.name;
    async = a.is_async;
    gpu_input = e.hardware && a.takes_device;
  },
  true,
)

unfoldable pub hardware_of : Machine → Encoder → List Activation
hardware_of m e = if e.prefer_hardware && not e.force_software then enumerate m.hardware else []

unfoldable pub create_transform : Machine → Encoder → Encoder × Bool
create_transform m e =
    let candidates = hardware_of m e in
    activated (record e { hardware = not (is_empty candidates) })
      (first_active (if is_empty candidates then enumerate m.software else candidates))

-- `width & ~1u`.
abbrev pub even : ℕ → ℕ
even n = n / 2 * 2

-- `configure` behind `create_transform`.
unfoldable pub streaming : ℕ → ℕ → Encoder → Option Activation → Encoder × Bool
streaming width height e none = (e, false)
streaming width height e (some a) = if not a.configures then (e, false) else (
  record e {
    description = record no_stream {
      width = even width;
      height = even height;
      fps = e.fps;
      bitrate = e.bitrate;
      sequence_header = a.sequence_header;
    };
    configured = true;
    last_pts = pos 0;
    need_input = not e.async;
  },
  true,
)

unfoldable pub configure : Machine → ℕ → ℕ → Encoder → Encoder × Bool
configure m width height e =
    let t = create_transform m (teardown e) in
    if t.1 then streaming width height t.0 t.0.transform else t
