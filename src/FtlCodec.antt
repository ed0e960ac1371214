-- ===== src/FtlCodec.antt =====
-- ingest/src/ftl_codec.rs: the commands, the codec and its errors.
pub mod Framing
pub mod Stream
pub mod Commands
pub mod Verdicts
pub mod Wire
use itgv.Base.{
  ℕ, ◌+◌, ◌&&◌, Option, none, some, List, [], ◌++◌, get_elem?, take, drop, length, ◌==◌,
  if◌then◌else◌,
}
use itgv.Std.HashMap.{HashMap, empty, insert}
use itgv.Std.Result.{Result}
use itgv.Std.Outcome.{Outcome, ok, err, panic}
use itgv.Std.Slice.{windows, position}
use itgv.Std.Text.{Text, lit, text_eq, contains, split, trim, remove_first}
use itgv.Std.Utf8.{Bytes, as_bytes, from_utf8_lossy}

pub data FtlCommand : Type 0 where
  hmac : FtlCommand
  connect : HashMap → FtlCommand
  ping : FtlCommand
  dot : FtlCommand
  attribute : HashMap → FtlCommand
  disconnect : FtlCommand

-- `io::Error`, by what it displays
pub record IoError : Type 0 where
  pub message : Text

pub data FtlError : Type 0 where
  unsupported : Text → FtlError
  io : IoError → FtlError

pub record FtlCodec : Type 0 where
  pub command_buffer : Bytes

abbrev pub new : FtlCodec
new = record { command_buffer = [] }

unfoldable pub reset : FtlCodec → FtlCodec
reset self = record self { command_buffer = [] }

-- What a call of `decode` leaves in the codec and in the buffer, and how it ends.
pub record Decoded : Type 0 where
  pub codec : FtlCodec
  pub buf : Bytes
  pub result : Outcome FtlError (Option FtlCommand)

abbrev pub delimiter : Bytes
delimiter = lit "\r\n\r\n"

-- `commands[2].remove(0)` and the two insertions; a missing piece or an empty key panics, before
-- the codec is reset.
unfoldable pub decode_connect : FtlCodec → Bytes → List Text → Decoded
unfolding reset insert
decode_connect self buf commands = elim (get_elem? commands 2) [
  | none ↦ record { codec = self; buf = buf; result = panic }
  | some word ↦ elim (remove_first word) [
    | none ↦ record { codec = self; buf = buf; result = panic }
    | some key ↦ elim (get_elem? commands 1) [
      | none ↦ record { codec = self; buf = buf; result = panic }
      | some channel ↦ record {
        codec = reset self;
        buf = buf;
        result = ok (
            some
              (connect (insert (lit "stream_key") key (insert (lit "channel_id") channel empty))));
      }
    ]
  ]
]

unfoldable pub decode_attribute : FtlCodec → Bytes → List Text → Decoded
unfolding reset insert
decode_attribute self buf commands = elim (get_elem? commands 0) [
  | none ↦ record { codec = self; buf = buf; result = panic }
  | some key ↦ elim (get_elem? commands 1) [
    | none ↦ record { codec = self; buf = buf; result = panic }
    | some value ↦ record {
      codec = reset self;
      buf = buf;
      result =
          ok (some (attribute (insert (lit "value") (trim value) (insert (lit "key") key empty))));
    }
  ]
]

abbrev resets : FtlCodec → Bytes → Outcome FtlError (Option FtlCommand) → Decoded
resets self buf result = record { codec = reset self; buf = buf; result = result }

-- The chain of tests on the text before the delimiter. `command.len()` is its length in bytes.
unfoldable pub decode_command : FtlCodec → Bytes → Text → Decoded
decode_command self buf command =
    if contains (lit "HMAC") command
    then resets self buf (ok (some hmac))
    else if contains (lit "DISCONNECT") command
    then resets self buf (ok (some disconnect))
    else if contains (lit "CONNECT") command
    then decode_connect self buf (split b' ' command)
    else if contains (lit ":") command
    then decode_attribute self buf (split b':' command)
    else if contains (lit ".") command && length (as_bytes command) == 1
    then resets self buf (ok (some dot))
    else if contains (lit "PING") command
    then resets self buf (ok (some ping))
    else resets self buf (err (unsupported command))

abbrev pub find_delimiter : Bytes → Option ℕ
find_delimiter buf = position (text_eq delimiter) (windows 4 buf)

-- `Decoder::decode`
unfoldable pub decode : FtlCodec → Bytes → Decoded
decode self buf = elim (find_delimiter buf) [
  | none ↦ record { codec = self; buf = buf; result = ok none }
  | some index ↦ decode_command self (drop (index + 4) buf) (from_utf8_lossy (take index buf))
]

-- `Encoder::encode`; `reserve` changes the capacity only.
unfoldable pub encode : FtlCodec → Text → Bytes → FtlCodec × Bytes × Result FtlError (Unit {0})
encode self line buf = (self, buf ++ as_bytes line, Result.ok tt)

-- `Display for FtlError`
unfoldable pub display : FtlError → Text
display (io e) = e.message
display (unsupported s) = lit "Unsupported FTL Command " ++ s ++ lit "! Bug GRVY to support this"

-- `From<io::Error>`
unfoldable pub from : IoError → FtlError
from e = io e
