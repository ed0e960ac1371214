-- ===== src/Std/Text.antt =====
-- `str` as the list of its code points, with the methods that the sources call.
pub mod Laws
use Prim.Native.Char.{code}
use Prim.Native.String.{String}
use itgv.Base.{
  ℕ, Bool, true, false, ◌&&◌, ◌||◌, List, [], ◌∷◌, ◌≡◌, ◌≢◌, ◌++◌, ◌↔◌, arith, reverse, Option,
  none, some, ◌==◌, within, if◌then◌else◌,
}

abbrev pub Text : Type 0
Text = List ℕ

-- The code points of a literal.
abbrev pub lit : String → Text
lit String.[] = []
lit (String.◌∷◌ c s) = code c ∷ lit s

-- `==` on strings, and a `match` on `as_str()`.
unfoldable pub text_eq : Text → Text → Bool
text_eq [] [] = true
text_eq (x ∷ xs) (y ∷ ys) = x == y && text_eq xs ys
text_eq _ _ = false

pub text_eq_iff : (a b : Text) → (text_eq a b ≡ true) ↔ (a ≡ b)
unfolding text_eq
text_eq_iff (x ∷ a) (y ∷ b) = ground (arith, text_eq_iff a b)
text_eq_iff _ _ = ground arith

unfoldable pub starts_with : Text → Text → Bool
starts_with [] s = true
starts_with (p ∷ ps) [] = false
starts_with (p ∷ ps) (c ∷ cs) = p == c && starts_with ps cs

-- `s.contains(pattern)`
unfoldable pub contains : Text → Text → Bool
unfolding starts_with
contains pattern_text [] = starts_with pattern_text []
contains pattern_text (c ∷ cs) = starts_with pattern_text (c ∷ cs) || contains pattern_text cs

-- `s.split(d).collect()`: one piece more than there are delimiters.
abbrev pub push_front : ℕ → List Text → List Text
push_front c [] = (c ∷ []) ∷ []
push_front c (p ∷ ps) = (c ∷ p) ∷ ps

unfoldable pub split : ℕ → Text → List Text
split d [] = [] ∷ []
split d (c ∷ cs) = let rest = split d cs in if c == d then [] ∷ rest else push_front c rest

-- `char::is_whitespace`: the code points with the property White_Space.
unfoldable pub is_whitespace : ℕ → Bool
is_whitespace c =
    within 9 13 c
    || c == 0x20
    || c == 0x85
    || c == 0xa0
    || c == 0x1680
    || within 0x2000 0x200a c
    || c == 0x2028
    || c == 0x2029
    || c == 0x202f
    || c == 0x205f
    || c == 0x3000

pub trim_start : Text → Text
trim_start [] = []
trim_start (c ∷ cs) = let rest = trim_start cs in if is_whitespace c then rest else c ∷ cs

unfoldable pub trim : Text → Text
unfolding trim_start is_whitespace
trim s = reverse (trim_start (reverse (trim_start s)))

-- `s.remove(0)`, which panics on the empty string; the sources drop the character it returns.
abbrev pub remove_first : Text → Option Text
remove_first [] = none
remove_first (c ∷ cs) = some cs

-- No character of the text is `d`.
abbrev pub Avoids : ℕ → Text → Type 0
Avoids d [] = Unit {0}
Avoids d (c ∷ cs) = (c ≢ d) × Avoids d cs

pub Avoids-append : (d : ℕ) (s t : Text) → Avoids d s → Avoids d t → Avoids d (s ++ t)
Avoids-append d [] t h k = k
Avoids-append d (c ∷ cs) t h k = (h.0, Avoids-append d cs t h.1 k)
