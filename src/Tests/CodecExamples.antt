-- ===== src/Tests/CodecExamples.antt =====
-- The theorems on what stands on the wire, at concrete lines.
use itgv.Base.{
  ℕ, ◌+◌, ◌≤◌, ◌≡◌, ◌≢◌, ◌↔◌, inl, inr, refl, Bool, true, false, ◌&&◌, none, some, [], ◌∷◌, ◌++◌,
  length, drop, arith, ltb, not, ◌==◌,
}
use itgv.Connection.Handler.Connect.{Accepts, connect_line-Accepts}
use itgv.Connection.State
use itgv.FtlCodec.Commands.{IsComplete, decode-IsComplete}
use itgv.FtlCodec.Framing.{FirstAt, find_delimiter_iff}
use itgv.FtlCodec.Stream.{feed, poll, fed, finish, run, drain_all, decode_progress, finish-run}
use itgv.FtlCodec.Verdicts.{
  verdict, HasKey, NoKeyword, decode_command-panic_iff, decode_command-err_iff,
  decode_command-keywords,
}
use itgv.FtlCodec.Wire.{connect_line, attribute_line, decode-connect_line, decode-attribute_line}
use itgv.FtlCodec.{
  hmac, connect, attribute, disconnect, dot, ping, unsupported, new, reset, delimiter,
  find_delimiter, decode, decode_command, decode_connect,
}
use itgv.Std.HashMap.{HashMap, empty, insert, get}
use itgv.Std.Outcome.{ok, err, panic}
use itgv.Std.Slice.{windows, position}
use itgv.Std.Text.{Text, lit, text_eq, starts_with, contains, split, Avoids, is_whitespace}
use itgv.Std.Text.Laws.{Occurs}
use itgv.Std.Utf8.RoundTrip.{AllScalar}
use itgv.Tests.Demo.{services, env}
use itgv.Std.Utf8.{as_bytes, from_utf8_lossy}

unfoldable all_small : Text → Bool
all_small [] = true
all_small (c ∷ cs) = ltb c 0xd800 && all_small cs

all_small-AllScalar : (s : Text) → all_small s ≡ true → AllScalar s
unfolding all_small
all_small-AllScalar [] h = tt
all_small-AllScalar (c ∷ cs) h = (inl (ground arith), all_small-AllScalar cs (ground arith))

unfoldable avoids : ℕ → Text → Bool
avoids d [] = true
avoids d (c ∷ cs) = not (c == d) && avoids d cs

avoids-Avoids : (d : ℕ) (s : Text) → avoids d s ≡ true → Avoids d s
unfolding avoids
avoids-Avoids d [] h = tt
avoids-Avoids d (c ∷ cs) h = (ground arith, avoids-Avoids d cs (ground arith))

abbrev a_connect_line : Text
a_connect_line = connect_line (lit "77") b'$' (lit "aa")

abbrev an_attribute_line : Text
an_attribute_line = attribute_line (lit "VideoCodec") ((lit " " ++ (lit "H264" ++ [])) ++ lit ":x")

finish-run_example :
    finish (run (poll ∷ feed (lit "\n\r\n.\r\n\r\n") ∷ poll ∷ []) new (lit "PING\r"))
    ≡ drain_all new (lit "PING\r" ++ fed (poll ∷ feed (lit "\n\r\n.\r\n\r\n") ∷ poll ∷ []))
finish-run_example = finish-run (poll ∷ feed (lit "\n\r\n.\r\n\r\n") ∷ poll ∷ []) new (lit "PING\r")

decode_progress_example : length (decode new (lit ".\r\n\r\nP")).buf + 4 ≤ 6
unfolding decode decode_command windows position contains from_utf8_lossy text_eq as_bytes
decode_progress_example = decode_progress new (lit ".\r\n\r\nP") refl

decode-IsComplete_example :
    IsComplete
      (connect (insert (lit "stream_key") (lit "aa") (insert (lit "channel_id") (lit "77") empty)))
unfolding decode decode_command decode_connect windows position contains from_utf8_lossy text_eq
    split
decode-IsComplete_example = decode-IsComplete new (lit "CONNECT 77 $aa\r\n\r\n") _ refl

find_delimiter_iff_example :
    ((i : ℕ) → (find_delimiter (lit ".\r\n\r\n") ≡ some i) ↔ FirstAt (lit ".\r\n\r\n") i)
    × ((find_delimiter (lit ".\r\n\r\n") ≡ none)
        ↔ ((j : ℕ) → starts_with delimiter (drop j (lit ".\r\n\r\n")) ≡ false))
find_delimiter_iff_example = find_delimiter_iff (lit ".\r\n\r\n")

decode_command-panic_iff_example : (verdict new [] (lit "CONNECT 77") ≡ panic) ↔ (
    ¬ Occurs (lit "HMAC") (lit "CONNECT 77")
    × ¬ Occurs (lit "DISCONNECT") (lit "CONNECT 77")
    × Occurs (lit "CONNECT") (lit "CONNECT 77")
    × ¬ HasKey (split b' ' (lit "CONNECT 77")))
decode_command-panic_iff_example = decode_command-panic_iff new [] (lit "CONNECT 77")

decode_command-err_iff_example :
    (verdict new [] (lit "HELLO") ≡ err (unsupported (lit "HELLO"))) ↔ (
      (unsupported (lit "HELLO") ≡ unsupported (lit "HELLO"))
      × NoKeyword (lit "HELLO")
      × ¬ Occurs (lit "PING") (lit "HELLO")
      × (lit "HELLO" ≢ lit "."))
decode_command-err_iff_example =
    decode_command-err_iff new [] (lit "HELLO") (unsupported (lit "HELLO"))

decode_command-keywords_example :
    ((verdict new [] (lit "PING 5") ≡ ok (some hmac)) ↔ Occurs (lit "HMAC") (lit "PING 5"))
    × ((verdict new [] (lit "PING 5") ≡ ok (some disconnect))
        ↔ (¬ Occurs (lit "HMAC") (lit "PING 5") × Occurs (lit "DISCONNECT") (lit "PING 5")))
    × ((verdict new [] (lit "PING 5") ≡ ok (some dot)) ↔ (lit "PING 5" ≡ lit "."))
    × ((verdict new [] (lit "PING 5") ≡ ok (some ping))
        ↔ (NoKeyword (lit "PING 5") × Occurs (lit "PING") (lit "PING 5")))
decode_command-keywords_example = decode_command-keywords new [] (lit "PING 5")

decode-connect_line_example :
    (entries : HashMap) × (decode new (as_bytes a_connect_line ++ (delimiter ++ lit "."))
      ≡ record { codec = reset new; buf = lit "."; result = ok (some (connect entries)) })
    × (get (lit "channel_id") entries ≡ some (lit "77"))
    × (get (lit "stream_key") entries ≡ some (lit "aa"))
unfolding all_small avoids contains starts_with
decode-connect_line_example =
    decode-connect_line new (lit "77") (lit "aa") b'$' (lit ".")
      (all_small-AllScalar a_connect_line refl) (avoids-Avoids b'\r' a_connect_line refl)
      (avoids-Avoids b' ' (lit "77") refl) (avoids-Avoids b' ' (lit "$aa") refl) refl refl

decode-attribute_line_example :
    (entries : HashMap) × (decode new (as_bytes an_attribute_line ++ (delimiter ++ lit "."))
      ≡ record { codec = reset new; buf = lit "."; result = ok (some (attribute entries)) })
    × (get (lit "key") entries ≡ some (lit "VideoCodec"))
    × (get (lit "value") entries ≡ some (lit "H264"))
unfolding all_small avoids contains starts_with is_whitespace
decode-attribute_line_example =
    decode-attribute_line new (lit "VideoCodec") (lit " ") (lit "H264") [] (lit ":x") (lit ".")
      (all_small-AllScalar an_attribute_line refl) (avoids-Avoids b'\r' an_attribute_line refl)
      (avoids-Avoids b':' (lit "VideoCodec") refl) (avoids-Avoids b':' (lit " H264") refl)
      (inr (lit "x", refl)) (refl, tt) tt refl refl refl refl refl

connect_line-Accepts_example :
    (entries : HashMap) × (decode new (as_bytes a_connect_line ++ (delimiter ++ []))
      ≡ record { codec = reset new; buf = []; result = ok (some (connect entries)) })
    × Accepts services (lit "aa") entries State.new env
unfolding all_small avoids contains starts_with
connect_line-Accepts_example =
    connect_line-Accepts services new (lit "77") (lit "aa") b'$' [] State.new env
      (all_small-AllScalar a_connect_line refl) (avoids-Avoids b'\r' a_connect_line refl)
      (avoids-Avoids b' ' (lit "77") refl) (avoids-Avoids b' ' (lit "$aa") refl) refl refl
