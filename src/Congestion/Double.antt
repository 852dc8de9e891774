-- ===== src/Congestion/Double.antt =====
-- What the controllers use of the type `double`.
use nova_net.Prelude.{Bool}
use nova_net.Prelude.Int.{ℤ}

pub record Double (F : Type 0) : Type 0 where
  pub add : F → F → F
  pub sub : F → F → F
  pub mul : F → F → F
  pub div : F → F → F
  pub lt : F → F → Bool
  pub le : F → F → Bool
  -- The conversions from and to integers.
  pub from_int : ℤ → F
  pub to_int : F → ℤ
