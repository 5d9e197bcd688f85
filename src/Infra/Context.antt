-- ===== src/Infra/Context.antt =====
-- `EnsurerContext` (task/interface.go): what a task is given besides the spec and the state.
use gardener_extension_provi.Base.{ℕ, String}
use gardener_extension_provi.Infra.Object.{Service}

pub record Context (W : Type 0) : Type 0 where
  pub service : Service W
  pub open service use *
  pub shoot_namespace : String
  pub garden_id : String
  -- rounds that the loops without a bound may take
  pub fuel : ℕ
