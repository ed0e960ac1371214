-- ===== src/FtlCodec/Framing.antt =====
-- ingest/src/ftl_codec.rs, `decode`: where it finds the delimiter, and what more input changes.
use itgv.Base.{
  ℕ, zero, suc, ◌+◌, ◌≤◌, ◌<◌, ◌≡◌, ◌↔◌, refl, sym, ap, subst, ◌∙◌, true, false, Option, none, some,
  [], ◌∷◌, ◌++◌, ◌⊎◌, inl, inr, arith, Bool-cases, Option-cases, length, take, drop,
  drop-append_of_le, length-append, length-drop, leb, if◌then◌else◌,
}
use native.Mathlib.Decide.{dec_lt}
use itgv.FtlCodec.{delimiter, find_delimiter}
use itgv.Std.Slice.{windows, position}
use itgv.Std.Text.{text_eq, starts_with}
use itgv.Std.Utf8.{Bytes}

-- The first place where the delimiter stands, by plain recursion.
unfoldable pub first_at : Bytes → Option ℕ
first_at [] = none
first_at (c ∷ cs) =
    let rest = first_at cs in
    if starts_with delimiter (c ∷ cs)
    then some 0
    else elim rest [ none ↦ none | some i ↦ some (suc i) ]

window_starts :
    (b : Bytes)
    → (if leb 4 (length b) then text_eq delimiter (take 4 b) else false) ≡ starts_with delimiter b
unfolding text_eq starts_with
window_starts [] = refl
window_starts (a ∷ []) = ground arith
window_starts (a ∷ b ∷ []) = ground arith
window_starts (a ∷ b ∷ c ∷ []) = ground arith
window_starts (a ∷ b ∷ c ∷ d ∷ rest) = ground arith

short_first_at : (b : Bytes) → length b < 4 → first_at b ≡ none
unfolding first_at starts_with
short_first_at [] h = refl
short_first_at (a ∷ []) h = ground arith
short_first_at (a ∷ b ∷ []) h = ground arith
short_first_at (a ∷ b ∷ c ∷ []) h = ground arith
short_first_at (a ∷ b ∷ c ∷ d ∷ rest) h = absurd (omega arith)

pub find_delimiter-first_at : (b : Bytes) → find_delimiter b ≡ first_at b
unfolding windows position first_at
find_delimiter-first_at [] = refl
find_delimiter-first_at (c ∷ cs) = elim (Bool-cases (leb 4 (length (c ∷ cs)))) [
  | inl long ↦ ground (arith, find_delimiter-first_at cs, window_starts (c ∷ cs))
  | inr short ↦ ground (arith, short_first_at (c ∷ cs))
]

-- The delimiter stands at `i`, and nowhere before it.
pub record FirstAt (b : Bytes) (i : ℕ) : Type 0 where
  pub fits : i + 4 ≤ length b
  pub stands : starts_with delimiter (drop i b) ≡ true
  pub first : (j : ℕ) → j < i → starts_with delimiter (drop j b) ≡ false

starts_with-length : (b : Bytes) → starts_with delimiter b ≡ true → 4 ≤ length b
unfolding starts_with
starts_with-length [] h = cc
starts_with-length (a ∷ []) h = ground arith
starts_with-length (a ∷ b ∷ []) h = ground arith
starts_with-length (a ∷ b ∷ c ∷ []) h = ground arith
starts_with-length (a ∷ b ∷ c ∷ d ∷ rest) h = omega arith

FirstAt-zero : (b : Bytes) → starts_with delimiter b ≡ true → FirstAt b 0
FirstAt-zero b h = record {
  fits = starts_with-length b h;
  stands = h;
  first = λ j lt. absurd (omega arith);
}

FirstAt-cons :
    (c : ℕ) (cs : Bytes) (i : ℕ)
    → starts_with delimiter (c ∷ cs) ≡ false
    → FirstAt cs i
    → FirstAt (c ∷ cs) (suc i)
FirstAt-cons c cs i h f = record {
  fits = omega (arith, f.fits);
  stands = f.stands;
  first = elim [ zero ↦ λ _. h | suc j ↦ λ lt. f.first j (omega arith) ];
}

abbrev FirstAtCases : ℕ → Bytes → Type 0
FirstAtCases c cs =
    ((starts_with delimiter (c ∷ cs) ≡ true) × (first_at (c ∷ cs) ≡ some 0))
    ⊎ ((starts_with delimiter (c ∷ cs) ≡ false) × (first_at cs ≡ none) × (first_at (c ∷ cs) ≡ none))
    ⊎ ((i : ℕ) × (starts_with delimiter (c ∷ cs) ≡ false)
        × (first_at cs ≡ some i)
        × (first_at (c ∷ cs) ≡ some (suc i)))

first_at-cases : (c : ℕ) (cs : Bytes) → FirstAtCases c cs
unfolding first_at
first_at-cases c cs = elim (Bool-cases (starts_with delimiter (c ∷ cs))) [
  | inl now ↦ inl (now, rw now)
  | inr later ↦ elim (Option-cases (first_at cs)) [
    | inl e ↦ inr (inl (later, e, rw (later, e)))
    | inr (i, e) ↦ inr (inr (i, later, e, rw (later, e)))
  ]
]

pub first_at-FirstAt : (b : Bytes) (i : ℕ) → first_at b ≡ some i → FirstAt b i
first_at-FirstAt [] i h = unfold first_at in cc
first_at-FirstAt (c ∷ cs) i h = elim (first_at-cases c cs) [
  | inl (now, e) ↦ subst (FirstAt (c ∷ cs)) (ground arith) (FirstAt-zero (c ∷ cs) now)
  | inr (inl (_, _, e)) ↦ cc
  | inr (inr (k, later, e, e')) ↦
      subst (FirstAt (c ∷ cs)) (ground arith) (FirstAt-cons c cs k later (first_at-FirstAt cs k e))
]

-- No delimiter found means that there is none anywhere.
pub first_at-none :
    (b : Bytes) → first_at b ≡ none → (j : ℕ) → starts_with delimiter (drop j b) ≡ false
unfolding first_at starts_with
first_at-none [] h zero = refl
first_at-none [] h (suc j) = refl
first_at-none (c ∷ cs) h j = elim (first_at-cases c cs) [
  | inl (now, e) ↦ cc
  | inr (inl (later, e, _)) ↦ (elim j as (λ j. starts_with delimiter (drop j (c ∷ cs)) ≡ false) [
    | zero ↦ later
    | suc k ↦ first_at-none cs e k
  ])
  | inr (inr (k, later, e, e')) ↦ cc
]

starts_with-append :
    (b more : Bytes) → 4 ≤ length b → starts_with delimiter (b ++ more) ≡ starts_with delimiter b
unfolding starts_with
starts_with-append [] more h = absurd (omega arith)
starts_with-append (a ∷ []) more h = absurd (omega arith)
starts_with-append (a ∷ b ∷ []) more h = absurd (omega arith)
starts_with-append (a ∷ b ∷ c ∷ []) more h = absurd (omega arith)
starts_with-append (a ∷ b ∷ c ∷ d ∷ rest) more h = refl

starts_with-drop-append :
    (b more : Bytes) (j : ℕ)
    → j + 4 ≤ length b
    → starts_with delimiter (drop j (b ++ more)) ≡ starts_with delimiter (drop j b)
starts_with-drop-append b more j h =
    ap (starts_with delimiter) (drop-append_of_le j b more (omega arith))
    ∙ starts_with-append (drop j b) more (omega (arith, length-drop j b))

-- What stands first in a buffer still does when bytes arrive behind it.
pub FirstAt-append : (b more : Bytes) (i : ℕ) → FirstAt b i → FirstAt (b ++ more) i
FirstAt-append b more i f = record {
  fits = omega (arith, f.fits, length-append b more);
  stands = starts_with-drop-append b more i f.fits ∙ f.stands;
  first = λ j lt. starts_with-drop-append b more j (omega (arith, f.fits)) ∙ f.first j lt;
}

-- At most one place is the first.
FirstAt-unique : (b : Bytes) (i k : ℕ) → FirstAt b i → FirstAt b k → i ≡ k
FirstAt-unique b i k f g = elim (dec_lt i k) [
  | yes lt ↦ cc (f.stands, g.first i lt)
  | no nlt ↦ elim (dec_lt k i) [ yes gt ↦ cc (g.stands, f.first k gt) | no ngt ↦ omega arith ]
]

pub FirstAt-first_at : (b : Bytes) (i : ℕ) → FirstAt b i → first_at b ≡ some i
FirstAt-first_at b i f = elim (Option-cases (first_at b)) [
  | inl e ↦ cc (f.stands, first_at-none b e i)
  | inr (k, e) ↦ e ∙ ap some (FirstAt-unique b k i (first_at-FirstAt b k e) f)
]

-- The search by `windows` and `position` finds the first place of the delimiter, and nothing
-- exactly when there is no such place.
pub find_delimiter_iff :
    (b : Bytes)
    → ((i : ℕ) → (find_delimiter b ≡ some i) ↔ FirstAt b i)
      × ((find_delimiter b ≡ none) ↔ ((j : ℕ) → starts_with delimiter (drop j b) ≡ false))
find_delimiter_iff b = (
  λ i. (
    λ h. first_at-FirstAt b i (sym (find_delimiter-first_at b) ∙ h),
    λ f. find_delimiter-first_at b ∙ FirstAt-first_at b i f,
  ),
  (
    λ h. first_at-none b (sym (find_delimiter-first_at b) ∙ h),
    λ h. find_delimiter-first_at b ∙ nowhere h,
  ),
)
  where
    nowhere : ((j : ℕ) → starts_with delimiter (drop j b) ≡ false) → first_at b ≡ none
    nowhere h = elim (Option-cases (first_at b)) [
      | inl e ↦ e
      | inr (k, e) ↦ cc ((first_at-FirstAt b k e).stands, h k)
    ]

-- More input does not move a delimiter that was found.
pub find_delimiter-append :
    (b more : Bytes) (i : ℕ) → find_delimiter b ≡ some i → find_delimiter (b ++ more) ≡ some i
find_delimiter-append b more i h =
    ((find_delimiter_iff (b ++ more)).0 i).1
      (FirstAt-append b more i (((find_delimiter_iff b).0 i).0 h))
