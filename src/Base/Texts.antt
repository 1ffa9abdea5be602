-- ===== src/Base/Texts.antt =====
-- JavaScript strings as lists of UTF-16 code units, with the operations that the code uses.
use Prim.Native.Nat.{ℕ}
use Prim.Native.Char.{code}
use Prim.Native.String.{String}
use mathlib.Core.Path.{◌≡◌, refl, ap₂}
use mathlib.Core.Logic.{◌↔◌}
use mathlib.Core.Bool.{Bool, true, false, ◌&&◌, ◌||◌}
use mathlib.Core.Option
use mathlib.Core.Option.{Option, none, some}
use mathlib.Core.List.{List, [], ◌∷◌}
use native.Mathlib.Omega.{arith}
use server_kit.Base.Tests.{◌==◌, if◌then◌else◌, &&_split}

abbrev pub Text : Type 0
Text = List ℕ

-- An ASCII literal.
abbrev pub codes : String → Text
codes String.[] = []
codes (String.◌∷◌ c s) = code c ∷ codes s

-- `===` on strings.
abbrev pub text_eq : Text → Text → Bool
text_eq [] [] = true
text_eq (x ∷ xs) (y ∷ ys) = x == y && text_eq xs ys
text_eq _ _ = false

pub text_eq_refl : (s : Text) → text_eq s s ≡ true
text_eq_refl [] = refl
text_eq_refl (x ∷ xs) = ground (arith, text_eq_refl xs)

pub text_eq_sound : (s t : Text) → text_eq s t ≡ true → s ≡ t
text_eq_sound [] [] h = refl
text_eq_sound [] (y ∷ ys) h = cc
text_eq_sound (x ∷ xs) [] h = cc
text_eq_sound (x ∷ xs) (y ∷ ys) h =
    let (a, b) = &&_split (x == y) (text_eq xs ys) h in
    let e : x ≡ y = ground arith in ap₂ ◌∷◌ e (text_eq_sound xs ys b)

pub text_eq_iff : (s t : Text) → (text_eq s t ≡ true) ↔ (s ≡ t)
text_eq_iff s t = (text_eq_sound s t, λ e. subst (λ u. text_eq s u ≡ true) e (text_eq_refl s))
  where
    subst : (P : Text → Type 0) → {a b : Text} → a ≡ b → P a → P b
    subst P e h = rw (← e) h

-- `cut c s` is `(s.slice(0, i), s.slice(i + 1))` for `i = s.indexOf(c)`, and `none` for -1.
abbrev pub push_front : ℕ → Text × Text → Text × Text
push_front x (a, b) = (x ∷ a, b)

abbrev pub cut : ℕ → Text → Option (Text × Text)
cut c [] = none
cut c (x ∷ xs) =
    let rest = Option.map (push_front x) (cut c xs) in if x == c then some ([], xs) else rest

-- `strip_suffix suf s` is `s.slice(0, -suf.length)` if `s.endsWith(suf)`.
abbrev pub strip_suffix : Text → Text → Option Text
strip_suffix suf [] = if text_eq [] suf then some [] else none
strip_suffix suf (x ∷ xs) =
    let rest = Option.map (λ p. x ∷ p) (strip_suffix suf xs) in
    if text_eq (x ∷ xs) suf then some [] else rest

-- `s.includes(c)` for one code unit.
abbrev pub includes : ℕ → Text → Bool
includes c [] = false
includes c (x ∷ xs) = x == c || includes c xs
