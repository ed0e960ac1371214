-- ===== src/Connection/Handler/Attributes.antt =====
-- ingest/src/connection/mod.rs, the attribute branch of `handle_command`: keys and fields.
use itgv.Base.{◌≡◌, ◌≢◌, refl, Option, some, arith}
use itgv.Connection.Handler.{set_attribute}
use itgv.Connection.State.{ConnectionState}
use itgv.Std.Text.{Text, lit, text_eq}

-- The attributes that are kept as text.
pub data TextKey : Type 0 where
  protocol_version vendor_name vendor_version video_codec video_height video_width : TextKey
  video_payload_type video_ingest_ssrc audio_codec audio_payload_type audio_ingest_ssrc : TextKey

-- The key on the wire.
abbrev pub wire_name : TextKey → Text
wire_name protocol_version = lit "ProtocolVersion"
wire_name vendor_name = lit "VendorName"
wire_name vendor_version = lit "VendorVersion"
wire_name video_codec = lit "VideoCodec"
wire_name video_height = lit "VideoHeight"
wire_name video_width = lit "VideoWidth"
wire_name video_payload_type = lit "VideoPayloadType"
wire_name video_ingest_ssrc = lit "VideoIngestSSRC"
wire_name audio_codec = lit "AudioCodec"
wire_name audio_payload_type = lit "AudioPayloadType"
wire_name audio_ingest_ssrc = lit "AudioIngestSSRC"

abbrev pub field_of : TextKey → ConnectionState → Option Text
field_of protocol_version s = s.protocol_version
field_of vendor_name s = s.vendor_name
field_of vendor_version s = s.vendor_version
field_of video_codec s = s.video_codec
field_of video_height s = s.video_height
field_of video_width s = s.video_width
field_of video_payload_type s = s.video_payload_type
field_of video_ingest_ssrc s = s.video_ingest_ssrc
field_of audio_codec s = s.audio_codec
field_of audio_payload_type s = s.audio_payload_type
field_of audio_ingest_ssrc s = s.audio_ingest_ssrc

-- The fields that no attribute writes.
pub record SameSession (s t : ConnectionState) : Type 0 where
  pub hmac : t.hmac_payload ≡ s.hmac_payload
  pub port : t.rtp_port ≡ s.rtp_port
  pub key : t.stream_key ≡ s.stream_key

-- The state with one text attribute replaced.
abbrev pub put_field : TextKey → Text → ConnectionState → ConnectionState
put_field protocol_version value s = record s { protocol_version = some value }
put_field vendor_name value s = record s { vendor_name = some value }
put_field vendor_version value s = record s { vendor_version = some value }
put_field video_codec value s = record s { video_codec = some value }
put_field video_height value s = record s { video_height = some value }
put_field video_width value s = record s { video_width = some value }
put_field video_payload_type value s = record s { video_payload_type = some value }
put_field video_ingest_ssrc value s = record s { video_ingest_ssrc = some value }
put_field audio_codec value s = record s { audio_codec = some value }
put_field audio_payload_type value s = record s { audio_payload_type = some value }
put_field audio_ingest_ssrc value s = record s { audio_ingest_ssrc = some value }

pub record Writes (k : TextKey) (value : Text) (s next : ConnectionState) : Type 0 where
  pub written : field_of k next ≡ some value
  pub others : (j : TextKey) → j ≢ k → field_of j next ≡ field_of j s
  pub video_flag : next.video ≡ s.video
  pub audio_flag : next.audio ≡ s.audio
  pub session : SameSession s next

pub set_attribute-put_field :
    (k : TextKey) (value : Text) (s : ConnectionState)
    → set_attribute (wire_name k) value s ≡ some (put_field k value s)
unfolding set_attribute text_eq
set_attribute-put_field protocol_version value s = refl
set_attribute-put_field _ value s = refl

put_field-others :
    (k j : TextKey) (value : Text) (s : ConnectionState)
    → j ≢ k
    → field_of j (put_field k value s) ≡ field_of j s
put_field-others protocol_version protocol_version value s h = absurd (h refl)
put_field-others _ j value s h = ground arith

put_field-written :
    (k : TextKey) (value : Text) (s : ConnectionState)
    → field_of k (put_field k value s) ≡ some value
put_field-written protocol_version value s = refl
put_field-written _ value s = refl

put_field_flags :
    (k : TextKey) (value : Text) (s : ConnectionState)
    → ((put_field k value s).video ≡ s.video) × ((put_field k value s).audio ≡ s.audio)
put_field_flags protocol_version value s = (refl, refl)
put_field_flags _ value s = (refl, refl)

pub put_field-SameSession :
    (k : TextKey) (value : Text) (s : ConnectionState) → SameSession s (put_field k value s)
put_field-SameSession protocol_version value s = record { hmac = refl; port = refl; key = refl }
put_field-SameSession _ value s = record { hmac = refl; port = refl; key = refl }

-- Each of the eleven text attributes is stored under its own name, replaces what stood there, and
-- leaves every other attribute, both flags, the payload, the port and the stream key alone.
pub set_attribute-Writes :
    (k : TextKey) (value : Text) (s : ConnectionState)
    → (next : ConnectionState) × (set_attribute (wire_name k) value s ≡ some next)
      × Writes k value s next
set_attribute-Writes k value s = (
  put_field k value s,
  set_attribute-put_field k value s,
  record {
    written = put_field-written k value s;
    others = λ j h. put_field-others k j value s h;
    video_flag = (put_field_flags k value s).0;
    audio_flag = (put_field_flags k value s).1;
    session = put_field-SameSession k value s;
  },
)
