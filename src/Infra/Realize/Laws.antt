-- ===== src/Infra/Realize/Laws.antt =====
-- The rounds of the wait for the SNAT address (task/taskhelper.go).
use gardener_extension_provi.Base.{ℕ, ◌+◌, ◌≤◌, String}
use gardener_extension_provi.Infra.Context.{Context}

-- Sleeping takes as long as it was asked for, and no listing sets the clock back.
pub record KeepsTime {W : Type 0} (ctx : Context W) : Type 0 where
  pub sleeps : (n : ℕ) (w : W) → ctx.now w + n ≤ ctx.now (ctx.sleep n w)
  pub lists : (path : String) (w : W) → ctx.now w ≤ ctx.now (ctx.realized_entities path w).1
