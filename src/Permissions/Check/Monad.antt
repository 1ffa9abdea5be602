-- ===== src/Permissions/Check/Monad.antt =====
-- The context that the evaluator mutates, and computations that read and write it or throw.
use server_kit.Base.{ℕ, Text, Result, ok, err, Bool, List}
use server_kit.Permissions.Model.{ModelError}

-- `durationMs` is set by the caller from the clock, and is an argument there.
pub record CheckMetrics : Type 0 where
  pub tuple_reads : ℕ
  pub parent_lookups : ℕ
  pub cache_hits : ℕ
  pub deepest : ℕ
  pub hit_max_depth : Bool

-- The model, the repository and the subject are parameters of the evaluator.
pub record CheckCtx : Type 0 where
  pub memo : List (Text × Bool)
  pub visiting : List Text
  pub metrics : CheckMetrics

abbrev pub Check : Type 0 → Type 0
Check A = CheckCtx → Result ModelError (A × CheckCtx)

abbrev pub pure : {A : Type 0} → A → Check A
pure a ctx = ok (a, ctx)

infixl 5 ◌>>=◌ ◌>>◌
abbrev pub ◌>>=◌ : {A B : Type 0} → Check A → (A → Check B) → Check B
◌>>=◌ p f ctx = elim (p ctx) [ ok (a, ctx') ↦ f a ctx' | err e ↦ err e ]

abbrev pub ◌>>◌ : {B : Type 0} → Check (Unit {0}) → Check B → Check B
p >> q = p >>= λ _. q
