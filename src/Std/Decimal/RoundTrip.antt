-- ===== src/Std/Decimal/RoundTrip.antt =====
-- A reader of decimal digits, for what `display` writes.
use itgv.Base.{
  ℕ, zero, suc, ◌+◌, ◌-◌, ◌*◌, ◌/◌, ◌%◌, ◌<◌, ◌≡◌, ap, ◌∙◌, Bool, false, [], ◌∷◌, ◌++◌, inl, inr,
  arith, Bool-cases, within, ◌==◌, if◌then◌else◌,
}
use itgv.Std.Decimal.{digits, display}
use itgv.Std.Text.{Text}

abbrev pub is_digit : ℕ → Bool
is_digit c = within b'0' b'9' c

-- Reads digits up to the first character that is none.
unfoldable pub read_from : ℕ → Text → ℕ
read_from n [] = n
read_from n (c ∷ cs) =
    let rest = read_from (n * 10 + (c - b'0')) cs in if is_digit c then rest else n

read_from-digit :
    (n d : ℕ) (cs : Text) → d < 10 → read_from n ((b'0' + d) ∷ cs) ≡ read_from (n * 10 + d) cs
unfolding read_from
read_from-digit n d cs h = ground arith

read_from-digits :
    (fuel n : ℕ) (out tail : Text)
    → n < fuel
    → read_from 0 (digits fuel n out ++ tail) ≡ read_from n (out ++ tail)
unfolding digits
read_from-digits zero n out tail h = absurd (omega arith)
read_from-digits (suc fuel) n out tail h = elim (Bool-cases (n / 10 == 0)) [
  | inl last ↦ rw last (
      read_from-digit 0 (n % 10) (out ++ tail) (omega arith)
      ∙ same (0 * 10 + n % 10) (ground arith))
  | inr more ↦ rw more (
      read_from-digits fuel (n / 10) ((b'0' + n % 10) ∷ out) tail (ground arith)
      ∙ read_from-digit (n / 10) (n % 10) (out ++ tail) (omega arith)
      ∙ same (n / 10 * 10 + n % 10) (omega arith))
]
  where
    same : (k : ℕ) → k ≡ n → read_from k (out ++ tail) ≡ read_from n (out ++ tail)
    same k e = ap (λ x. read_from x (out ++ tail)) e

read_from_end : (n c : ℕ) (cs : Text) → is_digit c ≡ false → read_from n (c ∷ cs) ≡ n
unfolding read_from
read_from_end n c cs h = rw h

-- Whatever stands behind the number, if it does not begin with a digit.
pub read_from-display :
    (n c : ℕ) (cs : Text) → is_digit c ≡ false → read_from 0 (display n ++ (c ∷ cs)) ≡ n
unfolding display
read_from-display n c cs h =
    read_from-digits (suc n) n [] (c ∷ cs) (omega arith) ∙ read_from_end n c cs h
