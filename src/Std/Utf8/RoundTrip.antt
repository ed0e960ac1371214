-- ===== src/Std/Utf8/RoundTrip.antt =====
-- UTF-8: `as_bytes` followed by `from_utf8_lossy`.
use itgv.Base.{ℕ, ◌≤◌, ◌<◌, ◌≡◌, ◌≢◌, refl, ap, ◌∙◌, [], ◌∷◌, ◌++◌, ◌⊎◌, arith}
use native.Mathlib.Decide.{dec_lt}
use itgv.Std.Text.{Text, Avoids, Avoids-append}
use itgv.Std.Utf8.{Bytes, start, encode_char, as_bytes, decode_from, from_utf8_lossy}

-- A Unicode scalar value, as every Rust `char` is.
abbrev pub IsScalar : ℕ → Type 0
IsScalar c = (c < 0xd800) ⊎ ((0xdfff < c) × (c < 0x110000))

abbrev pub AllScalar : Text → Type 0
AllScalar [] = Unit {0}
AllScalar (c ∷ cs) = IsScalar c × AllScalar cs

decode_one :
    (c : ℕ) (rest : Bytes)
    → c < 0x80
    → decode_from start (encode_char c ++ rest) ≡ c ∷ decode_from start rest
unfolding encode_char decode_from
decode_one c rest h = ground arith

decode_two :
    (c : ℕ) (rest : Bytes)
    → 0x80 ≤ c
    → c < 0x800
    → decode_from start (encode_char c ++ rest) ≡ c ∷ decode_from start rest
unfolding encode_char decode_from
decode_two c rest lo hi = ground arith

decode_three :
    (c : ℕ) (rest : Bytes)
    → 0x800 ≤ c
    → c < 0x10000
    → IsScalar c
    → decode_from start (encode_char c ++ rest) ≡ c ∷ decode_from start rest
unfolding encode_char decode_from
decode_three c rest lo hi s = ground arith

decode_four :
    (c : ℕ) (rest : Bytes)
    → 0x10000 ≤ c
    → c < 0x110000
    → decode_from start (encode_char c ++ rest) ≡ c ∷ decode_from start rest
unfolding encode_char decode_from
decode_four c rest lo hi = ground arith

decode_from-encode_char :
    (c : ℕ) (rest : Bytes)
    → IsScalar c
    → decode_from start (encode_char c ++ rest) ≡ c ∷ decode_from start rest
decode_from-encode_char c rest s = elim (dec_lt c 0x80) [
  | yes one ↦ decode_one c rest one
  | no more_than_one ↦ elim (dec_lt c 0x800) [
    | yes two ↦ decode_two c rest (omega arith) two
    | no more_than_two ↦ elim (dec_lt c 0x10000) [
      | yes three ↦ decode_three c rest (omega arith) three s
      | no more_than_three ↦ decode_four c rest (omega arith) (omega arith)
    ]
  ]
]

decode_from-as_bytes : (s : Text) → AllScalar s → decode_from start (as_bytes s) ≡ s
unfolding as_bytes
decode_from-as_bytes [] h = unfold decode_from in refl
decode_from-as_bytes (c ∷ cs) h =
    decode_from-encode_char c (as_bytes cs) h.0 ∙ ap (◌∷◌ c) (decode_from-as_bytes cs h.1)

-- Lossy decoding loses nothing of what was encoded.
pub from_utf8_lossy-as_bytes : (s : Text) → AllScalar s → from_utf8_lossy (as_bytes s) ≡ s
unfolding from_utf8_lossy
from_utf8_lossy-as_bytes s h = decode_from-as_bytes s h

encode_char-Avoids : (d c : ℕ) → d < 0x80 → c ≢ d → Avoids d (encode_char c)
unfolding encode_char
encode_char-Avoids d c h ne = ground arith

-- An ASCII byte stands in the encoding only where its character stands in the text.
pub as_bytes-Avoids : (d : ℕ) (s : Text) → d < 0x80 → Avoids d s → Avoids d (as_bytes s)
unfolding as_bytes
as_bytes-Avoids d [] h a = tt
as_bytes-Avoids d (c ∷ cs) h a =
    Avoids-append d (encode_char c) (as_bytes cs) (encode_char-Avoids d c h a.0)
      (as_bytes-Avoids d cs h a.1)
