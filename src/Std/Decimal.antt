-- ===== src/Std/Decimal.antt =====
-- The decimal `Display` of an unsigned integer.
pub mod RoundTrip
use itgv.Base.{ℕ, zero, suc, ◌+◌, ◌/◌, ◌%◌, [], ◌∷◌, ◌==◌, if◌then◌else◌}
use itgv.Std.Text.{Text}

-- The digits of `n` in front of `out`. A number has at most one digit more than it has units.
unfoldable pub digits : ℕ → ℕ → Text → Text
digits zero n out = out
digits (suc fuel) n out =
    let rest = digits fuel (n / 10) ((b'0' + n % 10) ∷ out) in
    if n / 10 == 0 then (b'0' + n % 10) ∷ out else rest

unfoldable pub display : ℕ → Text
unfolding digits
display n = digits (suc n) n []
