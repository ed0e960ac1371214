-- ===== src/Connection/State.antt =====
-- ingest/src/connection/state.rs: what is negotiated with the client.
use itgv.Base.{ℕ, Bool, false, Option, none, some, List, [], ◌∷◌, ◌++◌}
use itgv.Std.Text.{Text, lit}

pub record ConnectionState : Type 0 where
  pub hmac_payload : Option Text
  pub protocol_version : Option Text
  pub vendor_name : Option Text
  pub vendor_version : Option Text
  pub video : Bool
  pub video_codec : Option Text
  pub video_height : Option Text
  pub video_width : Option Text
  pub video_payload_type : Option Text
  pub video_ingest_ssrc : Option Text
  pub audio : Bool
  pub audio_codec : Option Text
  pub audio_payload_type : Option Text
  pub audio_ingest_ssrc : Option Text
  pub rtp_port : Option ℕ  -- u16
  pub stream_key : Option Text

unfoldable pub new : ConnectionState
new = record {
  hmac_payload = none;
  protocol_version = none;
  vendor_name = none;
  vendor_version = none;
  video = false;
  video_codec = none;
  video_height = none;
  video_width = none;
  video_payload_type = none;
  video_ingest_ssrc = none;
  audio = false;
  audio_codec = none;
  audio_payload_type = none;
  audio_ingest_ssrc = none;
  rtp_port = none;
  stream_key = none;
}

unfoldable pub get_payload : ConnectionState → Text
get_payload self = elim self.hmac_payload [ some payload ↦ payload | none ↦ [] ]

-- A line given to the logger, at the level of `info!` or `warn!`.
pub data LogLine : Type 0 where
  info : Text → LogLine
  warn : Text → LogLine

unfoldable pub print_field : Text → Option Text → LogLine
print_field name (some v) = info (name ++ (lit ": " ++ v))
print_field name none = warn (name ++ lit ": None")

-- `print`, as the lines that it logs
unfoldable pub print : ConnectionState → List LogLine
unfolding print_field
print self =
    print_field (lit "Protocol Version") self.protocol_version
    ∷ print_field (lit "Vendor Name") self.vendor_name
    ∷ print_field (lit "Vendor Version") self.vendor_version
    ∷ print_field (lit "Video Codec") self.video_codec
    ∷ print_field (lit "Video Height") self.video_height
    ∷ print_field (lit "Video Width") self.video_width
    ∷ print_field (lit "Audio Codec") self.audio_codec
    ∷ []
