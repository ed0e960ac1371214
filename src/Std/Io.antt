-- ===== src/Std/Io.antt =====
-- Code with effects: a function of the state of everything outside, with a result.
abbrev pub Io : Type 0 → Type 0 → Type 0
Io S A = S → S × A

abbrev pub pure : {S A : Type 0} → A → Io S A
pure a s = (s, a)

infixl 5 ◌>>=◌ ◌>>◌
abbrev pub ◌>>=◌ : {S A B : Type 0} → Io S A → (A → Io S B) → Io S B
◌>>=◌ m f s = f (m s).1 (m s).0

abbrev pub ◌>>◌ : {S A B : Type 0} → Io S A → Io S B → Io S B
◌>>◌ m k s = k (m s).0
