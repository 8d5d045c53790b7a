-- ===== src/Prelude/ResultBind.antt =====
-- Chains of steps that may raise.
use vantacore_engine.Prelude.Results.{Result, ok, raise}

infixl 5 ◌>>=◌
abbrev pub ◌>>=◌ {ℓ κ} : {A : Type ℓ} {B : Type κ} → Result A → (A → Result B) → Result B
ok a >>= f = f a
raise e >>= f = raise e
