-- ===== src/Std/Slice.antt =====
-- `slice::windows` and `Iterator::position`.
use itgv.Base.{ℕ, suc, Bool, List, [], ◌∷◌, Option, none, some, length, take, leb, if◌then◌else◌}

module _ {ℓ} {A : Type ℓ} where
  -- `xs.windows(n)` for `n` at least 1
  unfoldable pub windows : ℕ → List A → List (List A)
  windows n [] = []
  windows n (x ∷ xs) =
      let rest = windows n xs in if leb n (length (x ∷ xs)) then take n (x ∷ xs) ∷ rest else []

  unfoldable pub position : (A → Bool) → List A → Option ℕ
  position p [] = none
  position p (x ∷ xs) =
      let rest = position p xs in
      if p x then some 0 else elim rest [ none ↦ none | some i ↦ some (suc i) ]
