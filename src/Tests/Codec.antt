-- ===== src/Tests/Codec.antt =====
-- Runs of the codec on concrete input.
use itgv.Base.{◌≡◌, refl, some}
use itgv.FtlCodec.{
  ping, dot, connect, attribute, new, decode, decode_command, decode_connect, decode_attribute,
}
use itgv.Std.HashMap.{empty, insert}
use itgv.Std.Outcome.{ok, panic}
use itgv.Std.Slice.{windows, position}
use itgv.Std.Text.{lit, text_eq, contains, split, trim}
use itgv.Std.Utf8.{as_bytes, from_utf8_lossy}

decode-ping : (decode new (lit "PING 1\r\n\r\n.\r\n\r\n")).result ≡ ok (some ping)
unfolding decode decode_command windows position contains from_utf8_lossy text_eq
decode-ping = refl

decode-dot : (decode new (lit ".\r\n\r\n")).result ≡ ok (some dot)
unfolding decode decode_command windows position contains from_utf8_lossy text_eq as_bytes
decode-dot = refl

decode-connect :
    (decode new (lit "CONNECT 77 $aa\r\n\r\n")).result
    ≡ ok (
        some (
          connect
            (insert (lit "stream_key") (lit "aa") (insert (lit "channel_id") (lit "77") empty))))
unfolding decode decode_command decode_connect windows position contains from_utf8_lossy text_eq
    split
decode-connect = refl

decode-short_connect : (decode new (lit "CONNECT 77\r\n\r\n")).result ≡ panic
unfolding decode decode_command decode_connect windows position contains from_utf8_lossy text_eq
    split
decode-short_connect = refl

decode-attribute :
    (decode new (lit "VideoWidth: 1280\r\n\r\n")).result
    ≡ ok (
        some (
          attribute
            (insert (lit "value") (lit "1280") (insert (lit "key") (lit "VideoWidth") empty))))
unfolding decode decode_command decode_attribute windows position contains from_utf8_lossy text_eq
    split trim
decode-attribute = refl
