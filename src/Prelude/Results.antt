-- ===== src/Prelude/Results.antt =====
-- Go's (value, error) pair, generic in the error.
pub data Result {ℓ κ} (E : Type κ) (A : Type ℓ) : Type (ℓ ⊔ κ) where
  err : E → Result E A
  ok : A → Result E A
