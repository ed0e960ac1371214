-- ===== src/Std/Outcome.antt =====
-- The end of a call: `Ok`, `Err`, or an unwinding panic, which no caller in the sources catches.
pub data Outcome {ℓ} (E A : Type ℓ) : Type ℓ where
  ok : A → Outcome E A
  err : E → Outcome E A
  panic : Outcome E A
