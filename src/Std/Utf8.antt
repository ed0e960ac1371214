-- ===== src/Std/Utf8.antt =====
-- `str::as_bytes` and `String::from_utf8_lossy`.
pub mod RoundTrip
use itgv.Base.{
  ℕ, zero, suc, ◌+◌, ◌-◌, ◌*◌, ◌/◌, ◌%◌, List, [], ◌∷◌, ◌++◌, ltb, within, ◌==◌, if◌then◌else◌,
}
use itgv.Std.Text.{Text}

abbrev pub Bytes : Type 0
Bytes = List ℕ

-- U+FFFD REPLACEMENT CHARACTER
abbrev pub replacement : ℕ
replacement = 0xfffd

unfoldable pub encode_char : ℕ → Bytes
encode_char c =
    if ltb c 0x80
    then c ∷ []
    else if ltb c 0x800
    then (0xc0 + c / 64) ∷ (0x80 + c % 64) ∷ []
    else if ltb c 0x10000
    then (0xe0 + c / 4096) ∷ (0x80 + c / 64 % 64) ∷ (0x80 + c % 64) ∷ []
    else (0xf0 + c / 262144) ∷ (0x80 + c / 4096 % 64) ∷ (0x80 + c / 64 % 64) ∷ (0x80 + c % 64) ∷ []

unfoldable pub as_bytes : Text → Bytes
unfolding encode_char
as_bytes [] = []
as_bytes (c ∷ cs) = encode_char c ++ as_bytes cs

-- Between two bytes the decoder is at a character's start, or still wants continuation bytes: one
-- more than `left`, the next of them in the range from `lo` to `hi`.
pub data Pending : Type 0 where
  start : Pending
  wants : (left value lo hi : ℕ) → Pending

pub first_byte : ℕ → Text × Pending
first_byte b =
    if ltb b 0x80
    then (b ∷ [], start)
    else if within 0xc2 0xdf b
    then ([], wants 0 (b - 0xc0) 0x80 0xbf)
    else if within 0xe0 0xef b
    then (
      [],
      wants 1 (b - 0xe0) (if b == 0xe0 then 0xa0 else 0x80) (if b == 0xed then 0x9f else 0xbf),
    )
    else if within 0xf0 0xf4 b
    then (
      [],
      wants 2 (b - 0xf0) (if b == 0xf0 then 0x90 else 0x80) (if b == 0xf4 then 0x8f else 0xbf),
    )
    else (replacement ∷ [], start)

abbrev continue_with : ℕ → ℕ → Text × Pending
continue_with zero value = (value ∷ [], start)
continue_with (suc left) value = ([], wants left value 0x80 0xbf)

-- A byte that does not continue the character ends it with one replacement, and is read afresh.
pub next_byte : Pending → ℕ → Text × Pending
unfolding first_byte
next_byte start b = first_byte b
next_byte (wants left value lo hi) b =
    if within lo hi b
    then continue_with left (value * 64 + (b - 0x80))
    else (replacement ∷ (first_byte b).0, (first_byte b).1)

unfoldable pub decode_from : Pending → Bytes → Text
unfolding next_byte
decode_from start [] = []
decode_from (wants _ _ _ _) [] = replacement ∷ []
decode_from p (b ∷ bs) = let (out, q) = next_byte p b in out ++ decode_from q bs

unfoldable pub from_utf8_lossy : Bytes → Text
unfolding decode_from
from_utf8_lossy = decode_from start
