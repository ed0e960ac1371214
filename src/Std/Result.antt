-- ===== src/Std/Result.antt =====
-- `Result`, for calls that cannot panic.
pub data Result {ℓ} (E A : Type ℓ) : Type ℓ where
  ok : A → Result E A
  err : E → Result E A
