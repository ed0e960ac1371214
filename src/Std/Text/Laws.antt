-- ===== src/Std/Text/Laws.antt =====
-- Laws of the string methods: what `contains`, `split` and `trim` find.
use mathlib.Core.List.{reverse-append, reverse-cons, reverse-reverse}
use itgv.Base.{
  ℕ, ◌≡◌, ◌↔◌, refl, ap, ◌∙◌, true, false, List, [], ◌∷◌, ◌++◌, inl, inr, arith, Bool-cases, ◌==◌,
  reverse,
}
use itgv.Std.Text.{
  Text, starts_with, contains, split, push_front, is_whitespace, trim_start, trim, Avoids,
}

-- The pattern stands somewhere in the text.
abbrev pub Occurs : Text → Text → Type 0
Occurs p s = (before : Text) × (after : Text) × (s ≡ before ++ (p ++ after))

starts_with_sound : (p s : Text) → starts_with p s ≡ true → (after : Text) × (s ≡ p ++ after)
unfolding starts_with
starts_with_sound [] s h = (s, refl)
starts_with_sound (x ∷ p) [] h = cc
starts_with_sound (x ∷ p) (c ∷ cs) h = elim (Bool-cases (x == c)) [
  | inl e ↦ let (after, q) = starts_with_sound p cs (ground arith) in (after, ground arith)
  | inr e ↦ absurd (ground arith)
]

starts_with_complete : (p after : Text) → starts_with p (p ++ after) ≡ true
unfolding starts_with
starts_with_complete [] after = refl
starts_with_complete (x ∷ p) after = ground (arith, starts_with_complete p after)

contains_sound : (p s : Text) → contains p s ≡ true → Occurs p s
unfolding contains
contains_sound p [] h = let (after, e) = starts_with_sound p [] h in ([], after, e)
contains_sound p (c ∷ cs) h = elim (Bool-cases (starts_with p (c ∷ cs))) [
  | inl now ↦ let (after, e) = starts_with_sound p (c ∷ cs) now in ([], after, e)
  | inr later ↦
      let (before, after, e) = contains_sound p cs (ground arith) in
      (c ∷ before, after, ap (◌∷◌ c) e)
]

contains_here : (p s : Text) → starts_with p s ≡ true → contains p s ≡ true
unfolding contains
contains_here p [] h = h
contains_here p (c ∷ cs) h = rw h

contains_later : (p : Text) (c : ℕ) (cs : Text) → contains p cs ≡ true → contains p (c ∷ cs) ≡ true
unfolding contains
contains_later p c cs h = ground arith

contains_complete : (p before after : Text) → contains p (before ++ (p ++ after)) ≡ true
contains_complete p [] after = contains_here p (p ++ after) (starts_with_complete p after)
contains_complete p (c ∷ before) after =
    contains_later p c (before ++ (p ++ after)) (contains_complete p before after)

pub contains_iff : (p s : Text) → (contains p s ≡ true) ↔ Occurs p s
contains_iff p s = (contains_sound p s, λ o. ap (contains p) o.2 ∙ contains_complete p o.0 o.1)

-- A text without the delimiter is one piece.
pub split-Avoids : (d : ℕ) (s : Text) → Avoids d s → split d s ≡ s ∷ []
unfolding split
split-Avoids d [] h = refl
split-Avoids d (c ∷ cs) h = ground (arith, split-Avoids d cs h.1)

-- The first delimiter ends the first piece.
pub split-append :
    (d : ℕ) (s rest : Text) → Avoids d s → split d (s ++ (d ∷ rest)) ≡ s ∷ split d rest
unfolding split
split-append d [] rest h = ground arith
split-append d (c ∷ cs) rest h = ground (arith, split-append d cs rest h.1)

split-cons : (d : ℕ) (s : Text) → (p : Text) × (ps : List Text) × (split d s ≡ p ∷ ps)
unfolding split
split-cons d [] = ([], [], refl)
split-cons d (c ∷ cs) = elim (Bool-cases (c == d)) [
  | inl e ↦ ([], split d cs, rw e)
  | inr e ↦ let (p, ps, q) = split-cons d cs in (c ∷ p, ps, rw (e, q))
]

-- A text with the delimiter has a second piece.
pub split-contains :
    (d : ℕ) (s : Text)
    → contains (d ∷ []) s ≡ true
    → (key value : Text) × (rest : List Text) × (split d s ≡ key ∷ value ∷ rest)
unfolding contains split starts_with
split-contains d [] h = cc
split-contains d (c ∷ cs) h = elim (Bool-cases (c == d)) [
  | inl e ↦ let (p, ps, q) = split-cons d cs in ([], p, ps, rw (e, q))
  | inr e ↦
      let (key, value, rest, q) = split-contains d cs (ground arith) in
      (c ∷ key, value, rest, rw (e, q))
]

-- The pieces with the delimiter between them.
abbrev pub join : ℕ → List Text → Text
join d [] = []
join d (p ∷ []) = p
join d (p ∷ q ∷ ps) = p ++ (d ∷ join d (q ∷ ps))

join-push_front :
    (d c : ℕ) (p : Text) (ps : List Text) → join d (push_front c (p ∷ ps)) ≡ c ∷ join d (p ∷ ps)
join-push_front d c p [] = refl
join-push_front d c p (q ∷ ps) = refl

-- Splitting loses nothing.
pub join-split : (d : ℕ) (s : Text) → join d (split d s) ≡ s
unfolding split
join-split d [] = refl
join-split d (c ∷ cs) =
    let (p, ps, q) = split-cons d cs in
    let ih = rw q at (join-split d cs) in
    elim (Bool-cases (c == d)) [
      | inl e ↦ rw (e, q) (ground (arith, ih))
      | inr e ↦ rw (e, q) (join-push_front d c p ps ∙ ap (◌∷◌ c) ih)
    ]

-- Only whitespace.
abbrev pub Blank : Text → Type 0
Blank [] = Unit {0}
Blank (c ∷ cs) = (is_whitespace c ≡ true) × Blank cs

-- No whitespace in front.
abbrev pub Solid : Text → Type 0
Solid [] = Unit {0}
Solid (c ∷ cs) = is_whitespace c ≡ false

Blank-append : (s t : Text) → Blank s → Blank t → Blank (s ++ t)
Blank-append [] t h k = k
Blank-append (c ∷ cs) t h k = (h.0, Blank-append cs t h.1 k)

Blank-reverse : (s : Text) → Blank s → Blank (reverse s)
Blank-reverse [] h = tt
Blank-reverse (c ∷ cs) h =
    rw reverse-cons (Blank-append (reverse cs) (c ∷ []) (Blank-reverse cs h.1) (h.0, tt))

trim_start-Blank : (s t : Text) → Blank s → trim_start (s ++ t) ≡ trim_start t
unfolding trim_start
trim_start-Blank [] t h = refl
trim_start-Blank (c ∷ cs) t h = rw h.0 (trim_start-Blank cs t h.1)

trim_start_all : (s : Text) → Blank s → trim_start s ≡ []
unfolding trim_start
trim_start_all [] h = refl
trim_start_all (c ∷ cs) h = rw h.0 (trim_start_all cs h.1)

trim_start-Solid : (s : Text) → Solid s → trim_start s ≡ s
unfolding trim_start
trim_start-Solid [] h = refl
trim_start-Solid (c ∷ cs) h = rw h

trim_end :
    (core after : Text)
    → Blank after
    → Solid (reverse core)
    → reverse (trim_start (reverse (core ++ after))) ≡ core
trim_end core after b s =
    rw
      (
        reverse-append core after,
        trim_start-Blank (reverse after) (reverse core) (Blank-reverse after b),
        trim_start-Solid (reverse core) s,
      )
      (reverse-reverse core)

-- `trim` takes the whitespace off both ends, and no more.
pub trim_core :
    (before core after : Text)
    → Blank before
    → Blank after
    → Solid core
    → Solid (reverse core)
    → trim (before ++ (core ++ after)) ≡ core
unfolding trim
trim_core before [] after bb ba s r = rw (trim_start-Blank before after bb, trim_start_all after ba)
trim_core before (c ∷ cs) after bb ba s r =
    rw (trim_start-Blank before (c ∷ cs ++ after) bb, trim_start-Solid (c ∷ cs ++ after) s)
      (trim_end (c ∷ cs) after ba r)
