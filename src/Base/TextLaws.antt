-- ===== src/Base/TextLaws.antt =====
-- Laws of the text operations: equality, the cut at a separator and the test for a suffix.
use Prim.Native.Nat.{ℕ}
use mathlib.Core.Path.{◌≡◌, refl, ap, ap₂}
use mathlib.Core.Logic.{◌≢◌, inl, inr}
use mathlib.Core.Bool.{false, ◌||◌}
use mathlib.Core.Option.{none, some}
use mathlib.Core.List.{[], ◌∷◌, ◌++◌}
use native.Mathlib.Omega.{arith}
use server_kit.Base.Tests.{◌==◌, ==_refl, Bool-cases, Option-cases}
use server_kit.Base.Lists.{length, length-append}
use server_kit.Base.Texts.{Text, text_eq, text_eq_iff, cut, strip_suffix, includes}

pub includes-append :
    (c : ℕ) (xs ys : Text) → includes c (xs ++ ys) ≡ (includes c xs || includes c ys)
includes-append c [] ys = refl
includes-append c (x ∷ xs) ys = ground (arith, includes-append c xs ys)

-- A text without `c`, then `c`: the cut falls there.
pub cut-append :
    (c : ℕ) (xs ys : Text) → includes c xs ≡ false → cut c (xs ++ c ∷ ys) ≡ some (xs, ys)
cut-append c [] ys h = rw (==_refl c)
cut-append c (x ∷ xs) ys h = ground (arith, cut-append c xs ys)

pub cut-none : (c : ℕ) (xs : Text) → includes c xs ≡ false → cut c xs ≡ none
cut-none c [] h = refl
cut-none c (x ∷ xs) h = ground (arith, cut-none c xs)

-- A cut gives the parts back, and the first has no separator.
pub cut-eq-some :
    (c : ℕ) (s : Text) {a b : Text}
    → cut c s ≡ some (a, b)
    → (s ≡ a ++ c ∷ b) × (includes c a ≡ false)
cut-eq-some c [] h = cc
cut-eq-some c (x ∷ xs) {a} {b} h = elim (Bool-cases (x == c)) [
  | inl same ↦ ground arith
  | inr other ↦ elim (Option-cases (cut c xs)) [
    | inl missing ↦ ground arith
    | inr ((a', b'), found) ↦ let (e, k) = cut-eq-some c xs found in ground arith
  ]
]

pub cut-eq-none : (c : ℕ) (s : Text) → cut c s ≡ none → includes c s ≡ false
cut-eq-none c [] h = refl
cut-eq-none c (x ∷ xs) h = ground (arith, cut-eq-none c xs)

pub strip_suffix-append : (suf p : Text) → strip_suffix suf (p ++ suf) ≡ some p
strip_suffix-append [] [] = refl
strip_suffix-append (x ∷ xs) [] = ground (arith, text_eq_iff (x ∷ xs) (x ∷ xs))
strip_suffix-append suf (x ∷ p) =
    ground (arith, strip_suffix-append suf p, text_eq_iff (x ∷ (p ++ suf)) suf, longer)
  where
    longer : (x ∷ (p ++ suf)) ≢ suf
    longer e = absurd (omega (arith, ap length e, length-append p suf))

pub strip_suffix-eq-some : (suf s : Text) {p : Text} → strip_suffix suf s ≡ some p → s ≡ p ++ suf
strip_suffix-eq-some suf [] h = ground (arith, text_eq_iff [] suf)
strip_suffix-eq-some suf (x ∷ xs) {p} h = elim (Bool-cases (text_eq (x ∷ xs) suf)) [
  | inl same ↦ ground (arith, text_eq_iff (x ∷ xs) suf)
  | inr other ↦ elim (Option-cases (strip_suffix suf xs)) [
    | inl missing ↦ ground arith
    | inr (q, found) ↦ ground (arith, strip_suffix-eq-some suf xs found)
  ]
]

pub append-cancel_right : (xs ys zs : Text) → xs ++ zs ≡ ys ++ zs → xs ≡ ys
append-cancel_right [] [] zs h = refl
append-cancel_right [] (y ∷ ys) zs h =
    absurd (omega (arith, ap length h, length-append (y ∷ ys) zs))
append-cancel_right (x ∷ xs) [] zs h =
    absurd (omega (arith, ap length h, length-append (x ∷ xs) zs))
append-cancel_right (x ∷ xs) (y ∷ ys) zs h =
    let e : x ≡ y = cc in
    let t : xs ++ zs ≡ ys ++ zs = cc in ap₂ ◌∷◌ e (append-cancel_right xs ys zs t)
