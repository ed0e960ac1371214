-- ===== src/Connection/Handler.antt =====
-- ingest/src/connection/mod.rs: `handle_command`. Every branch that answers sends its answer as the
-- last thing it does and only logs how that ended, so the answer is handed back here, and the
-- connection's task sends it.
pub mod Answers
pub mod Attributes
pub mod Connect
pub mod Hmac
use itgv.Base.{Bool, true, false, Option, none, some, List, [], ◌∷◌, if◌then◌else◌}
use itgv.Connection.Remote.{Env, Action, notify_stream_start, generate_hmac}
use itgv.Connection.Services.{Services}
use itgv.Connection.State.{ConnectionState, get_payload}
use itgv.FtlCodec.{FtlCommand, hmac, connect, ping, dot, attribute, disconnect}
use itgv.Std.HashMap.{HashMap, get}
use itgv.Std.Io.{pure, ◌>>=◌, ◌>>◌}
use itgv.Std.Text.{Text, lit, text_eq}

pub data FrameCommand : Type 0 where
  send : List Text → FrameCommand

-- The `match` on "true" and "false"; any other value is refused.
unfoldable pub parse_flag : Text → Option Bool
parse_flag value =
    if text_eq value (lit "true")
    then some true
    else if text_eq value (lit "false")
    then some false
    else none

abbrev set_video : ConnectionState → Option Bool → Option ConnectionState
set_video conn none = none
set_video conn (some flag) = some (record conn { video = flag })

abbrev set_audio : ConnectionState → Option Bool → Option ConnectionState
set_audio conn none = none
set_audio conn (some flag) = some (record conn { audio = flag })

-- The `match` on the key. `none` is the early `return` on an invalid flag; an unknown key is only
-- logged.
unfoldable pub set_attribute : Text → Text → ConnectionState → Option ConnectionState
unfolding parse_flag
set_attribute key value conn =
    if text_eq key (lit "ProtocolVersion")
    then some (record conn { protocol_version = some value })
    else if text_eq key (lit "VendorName")
    then some (record conn { vendor_name = some value })
    else if text_eq key (lit "VendorVersion")
    then some (record conn { vendor_version = some value })
    else if text_eq key (lit "Video")
    then set_video conn (parse_flag value)
    else if text_eq key (lit "VideoCodec")
    then some (record conn { video_codec = some value })
    else if text_eq key (lit "VideoHeight")
    then some (record conn { video_height = some value })
    else if text_eq key (lit "VideoWidth")
    then some (record conn { video_width = some value })
    else if text_eq key (lit "VideoPayloadType")
    then some (record conn { video_payload_type = some value })
    else if text_eq key (lit "VideoIngestSSRC")
    then some (record conn { video_ingest_ssrc = some value })
    else if text_eq key (lit "Audio")
    then set_audio conn (parse_flag value)
    else if text_eq key (lit "AudioCodec")
    then some (record conn { audio_codec = some value })
    else if text_eq key (lit "AudioPayloadType")
    then some (record conn { audio_payload_type = some value })
    else if text_eq key (lit "AudioIngestSSRC")
    then some (record conn { audio_ingest_ssrc = some value })
    else some conn

-- The state after a command, and the answer to send.
pub record Handled : Type 0 where
  pub state : ConnectionState
  pub answer : Option FrameCommand

abbrev pub answers : ConnectionState → List Text → Handled
answers conn pieces = record { state = conn; answer = some (send pieces) }

abbrev pub silent : ConnectionState → Handled
silent conn = record { state = conn; answer = none }

abbrev after_attribute : ConnectionState → Option ConnectionState → Handled
after_attribute conn none = silent conn
after_attribute conn (some conn') = answers conn' (lit "" ∷ [])

-- The attribute branch, on what the map holds under "key" and "value".
unfoldable pub handle_attribute : Option Text → Option Text → ConnectionState → Handled
handle_attribute (some key) (some value) conn = after_attribute conn (set_attribute key value conn)
handle_attribute none (some _) conn = silent conn
handle_attribute (some _) none conn = silent conn
handle_attribute none none conn = silent conn

module _ (services : Services) where
  -- The connect branch, on what the map holds under "stream_key" and "channel_id". A failed
  -- notification is only logged.
  unfoldable pub handle_connect :
      Option Text → Option Text → ConnectionState → Action services Handled
  handle_connect (some key) (some _) conn = do
    notify_stream_start services key
    pure (answers (record conn { stream_key = some key }) (lit "200\n" ∷ []))
  handle_connect none _ conn = pure (silent conn)
  handle_connect (some _) none conn = pure (silent conn)

  abbrev with_payload : ConnectionState → Text → ConnectionState
  with_payload conn payload = record conn { hmac_payload = some payload }

  unfoldable pub handle_hmac : ConnectionState → Action services Handled
  unfolding get_payload
  handle_hmac conn = do
    payload ← generate_hmac services
    let conn' = with_payload conn payload
    pure (answers conn' (lit "200 " ∷ get_payload conn' ∷ lit "\n" ∷ []))

  unfoldable pub handle_command : FtlCommand → ConnectionState → Action services Handled
  unfolding handle_attribute handle_connect handle_hmac
  handle_command hmac conn = handle_hmac conn
  handle_command (connect entries) conn =
      handle_connect (get (lit "stream_key") entries) (get (lit "channel_id") entries) conn
  handle_command (attribute entries) conn =
      pure (handle_attribute (get (lit "key") entries) (get (lit "value") entries) conn)
  handle_command ping conn = pure (answers conn (lit "201\n" ∷ []))
  handle_command dot conn = pure (silent conn)
  handle_command disconnect conn = pure (silent conn)
