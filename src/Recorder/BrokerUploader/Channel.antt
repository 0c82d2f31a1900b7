-- ===== src/Recorder/BrokerUploader/Channel.antt =====
-- recorder/src/broker/BrokerUploader.cpp: the request for the channel, the digits of the hash and the
-- prefix of the endpoint. What WinHTTP and the JSON parser answer is a parameter.
use gambit_record.Common.{
  ℕ, ◌/◌, ◌%◌, Bool, true, false, not, ◌&&◌, [], ◌∷◌, ◌++◌, ltb, ◌==◌, ◌+◌, if◌then◌else◌, take,
  Text, literal, decimal, is_empty,
}
use gambit_record.Recorder.BrokerUploader.{Response, Attempt, request, response_error}

pub record ChannelResult : Type 0 where
  pub success : Bool
  pub channel_id : Text
  pub title : Text
  pub error : Text

unfoldable pub no_channel : Text → ChannelResult
no_channel error = record { success = false; channel_id = []; title = []; error = error }

-- The identifier and the title in the body, or what the parser throws.
pub data Body : Type 0 where
  throws : Text → Body
  parsed : Text → Text → Body

unfoldable pub channel_of : Body → ChannelResult
unfolding no_channel
channel_of (throws e) = no_channel e
channel_of (parsed id title) = record { success = true; channel_id = id; title = title; error = [] }

unfoldable pub answered : (Text → Body) → Response → ChannelResult
unfolding literal no_channel channel_of response_error
answered parse r =
    if not (r.status == 200)
    then no_channel (
        literal "broker channel request failed (HTTP "
        ++ (decimal r.status
            ++ (literal ")" ++ (response_error r ++ (literal ": " ++ take 240 r.body)))))
    else channel_of (parse r.body)

-- Whether the endpoint is an HTTPS address, and whether WinHTTP opens and connects.
unfoldable pub channel : Bool → Bool → Bool → (ℕ → Attempt) → (Text → Body) → ChannelResult
unfolding literal no_channel answered
channel https opens connects attempt parse =
    if not https
    then no_channel (literal "invalid HTTPS broker endpoint")
    else if not opens
    then no_channel (literal "WinHTTP initialization failed")
    else if not connects
    then no_channel (literal "broker unavailable")
    else answered parse (request attempt 0 2)

-- The last slashes of a path go, but not its first character.
unfoldable pub without_slashes : Text → Text
without_slashes [] = []
without_slashes (c ∷ s) =
    let rest = without_slashes s in if c == 47 && is_empty rest then [] else c ∷ rest

unfoldable pub prefix_of : Text → Text
prefix_of [] = []
prefix_of (c ∷ s) = c ∷ without_slashes s

-- A character of "0123456789abcdef".
unfoldable pub hex_digit : ℕ → ℕ
hex_digit n = if ltb n 10 then 48 + n else 87 + n

unfoldable pub hex : Text → Text
unfolding hex_digit
hex [] = []
hex (b ∷ bytes) = hex_digit (b / 16) ∷ hex_digit (b % 16) ∷ hex bytes
