-- ===== src/Connection/Handshake/Attribute.antt =====
-- ingest/src/connection/mod.rs, the attribute branch of `handle_command`: what a client says of its
-- stream.
use itgv.Base.{◌≡◌, refl, Bool, true, false, some, arith}
use itgv.Connection.Handler.Attributes.{
  TextKey, wire_name, put_field, set_attribute-put_field, put_field-SameSession,
}
use itgv.Connection.Handler.{set_attribute, parse_flag}
use itgv.Connection.Handshake.Lines.{GoodAttribute}
use itgv.Connection.State.{ConnectionState}
use itgv.Std.Text.{Text, lit, text_eq, contains, starts_with, is_whitespace}

-- A text, or whether there is a picture, or sound.
pub data Attribute : Type 0 where
  text_attribute : TextKey → Text → Attribute
  video_flag : Bool → Attribute
  audio_flag : Bool → Attribute

abbrev pub key_of : Attribute → Text
key_of (text_attribute k value) = wire_name k
key_of (video_flag b) = lit "Video"
key_of (audio_flag b) = lit "Audio"

abbrev flag_text : Bool → Text
flag_text true = lit "true"
flag_text false = lit "false"

abbrev pub value_of : Attribute → Text
value_of (text_attribute k value) = value
value_of (video_flag b) = flag_text b
value_of (audio_flag b) = flag_text b

-- The state that knows of it.
abbrev pub put : Attribute → ConnectionState → ConnectionState
put (text_attribute k value) st = put_field k value st
put (video_flag b) st = record st { video = b }
put (audio_flag b) st = record st { audio = b }

pub set_attribute-put :
    (a : Attribute) (st : ConnectionState)
    → set_attribute (key_of a) (value_of a) st ≡ some (put a st)
unfolding set_attribute parse_flag text_eq
set_attribute-put (text_attribute k value) st = set_attribute-put_field k value st
set_attribute-put (video_flag true) st = refl
set_attribute-put (video_flag false) st = refl
set_attribute-put (audio_flag true) st = refl
set_attribute-put (audio_flag false) st = refl

pub put-port : (a : Attribute) (st : ConnectionState) → (put a st).rtp_port ≡ st.rtp_port
put-port (text_attribute k value) st = (put_field-SameSession k value st).port
put-port (video_flag b) st = refl
put-port (audio_flag b) st = refl

-- What is asked of a text: one line, with no colon, no whitespace at either end, no keyword.
abbrev pub Good : Attribute → Type 0
Good (text_attribute k value) = GoodAttribute (wire_name k) value
Good (video_flag b) = Unit {0}
Good (audio_flag b) = Unit {0}

video_line : (b : Bool) → GoodAttribute (lit "Video") (flag_text b)
unfolding contains starts_with is_whitespace
video_line b = record {
  scalar = ground arith;
  one_line = ground arith;
  one_key = ground arith;
  one_value = ground arith;
  no_space = ground arith;
  no_space_behind = ground arith;
  not_hmac = ground arith;
  not_disconnect = ground arith;
  not_connect = ground arith;
}

audio_line : (b : Bool) → GoodAttribute (lit "Audio") (flag_text b)
unfolding contains starts_with is_whitespace
audio_line b = record {
  scalar = ground arith;
  one_line = ground arith;
  one_key = ground arith;
  one_value = ground arith;
  no_space = ground arith;
  no_space_behind = ground arith;
  not_hmac = ground arith;
  not_disconnect = ground arith;
  not_connect = ground arith;
}

pub Good-line : (a : Attribute) → Good a → GoodAttribute (key_of a) (value_of a)
Good-line (text_attribute k value) good = good
Good-line (video_flag b) good = video_line b
Good-line (audio_flag b) good = audio_line b
