-- ===== src/Common/Results.antt =====
-- Rust's `Result`, with the error type first.

pub data Result {ℓ κ} (X : Type ℓ) (A : Type κ) : Type (ℓ ⊔ κ) where
  ok : A → Result X A
  err : X → Result X A
