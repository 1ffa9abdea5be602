-- ===== src/Base/ResultLaws.antt =====
-- Inversion of checks that may throw.
use mathlib.Core.Path.{◌≡◌, refl, subst₂}
use mathlib.Core.Bool.{Bool, true, false}
use mathlib.Core.List.{List, [], ◌∷◌}
use mathlib.Core.Option.{some}
use server_kit.Base.Lists.{All}
use server_kit.Base.Maps.{lookup}
use server_kit.Base.Texts.{Text, text_eq, text_eq_sound}
use server_kit.Base.Tests.{Bool-cases}
use server_kit.Base.Results.{Result, ok, err, ◌>>◌, ◌>>=◌, for_each, guard}
use native.Mathlib.Omega.{arith}
use mathlib.Core.Logic.{inl, inr}

module _ {ℓ} {E : Type ℓ} where
  -- A chain that returns has a first part that returns.
  pub >>=-eq-ok {κ μ} :
      {A : Type κ} {B : Type μ} (first : Result E A) (rest : A → Result E B) {final : B}
      → (first >>= rest) ≡ ok final
      → (value : A) × (first ≡ ok value) × (rest value ≡ ok final)
  >>=-eq-ok (err _) rest returned = cc
  >>=-eq-ok (ok value) rest returned = (value, refl, returned)

  pub >>-eq-ok {κ} :
      {B : Type κ} (m : Result E (Unit {0})) (k : Result E B) {b : B}
      → (m >> k) ≡ ok b
      → (m ≡ ok tt) × (k ≡ ok b)
  >>-eq-ok (ok tt) k h = (refl, h)
  >>-eq-ok (err e) k h = cc

  pub guard-eq-ok : (b : Bool) (e : E) → guard b e ≡ ok tt → b ≡ true
  guard-eq-ok true e h = refl
  guard-eq-ok false e h = cc

  pub for_each-eq-ok {κ} :
      {A : Type κ} (f : A → Result E (Unit {0})) (xs : List A)
      → for_each f xs ≡ ok tt
      → All (λ x. f x ≡ ok tt) xs
  for_each-eq-ok f [] h = tt
  for_each-eq-ok f (x ∷ xs) h =
      let (a, b) = >>-eq-ok (f x) (for_each f xs) h in (a, for_each-eq-ok f xs b)

  pub for_each-ok {κ} :
      {A : Type κ} (f : A → Result E (Unit {0})) (xs : List A)
      → All (λ x. f x ≡ ok tt) xs
      → for_each f xs ≡ ok tt
  for_each-ok f [] h = refl
  for_each-ok f (x ∷ xs) (a, b) = rw a (for_each-ok f xs b)

-- What holds of every entry holds of the one that is found.
pub All-lookup {ℓ κ} :
    {V : Type ℓ} (P : Text × V → Type κ) (k : Text) (m : List (Text × V)) {v : V}
    → All P m
    → lookup k m ≡ some v
    → P (k, v)
All-lookup P k [] h e = cc
All-lookup P k ((j, w) ∷ m) {v} (p, h) e = elim (Bool-cases (text_eq j k)) [
  | inl same ↦
      let found : w ≡ v = ground arith in subst₂ (λ a b. P (a, b)) (text_eq_sound j k same) found p
  | inr other ↦ All-lookup P k m h (rw other at e)
]
