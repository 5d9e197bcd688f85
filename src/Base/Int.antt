-- ===== src/Base/Int.antt =====
-- Go's `int`, where it may be negative. `negsuc n` is -(n + 1).
use gardener_extension_provi.Base.{ℕ}

pub data ℤ : Type 0 where
  pos : ℕ → ℤ
  negsuc : ℕ → ℤ
