-- ===== src/Prelude/Lists.antt =====
-- Lists measured by native numbers, Boolean searches in them, and predicates over them.
use Prim.Native.Nat.{ℕ, suc, ◌+◌}
use Prim.Native.String.{String, ◌++◌ as str_append}
use mathlib.Core.Path.{◌≡◌, refl, sym, ◌∙◌}
use mathlib.Core.Logic.{◌⊎◌, inl, inr, ◌↔◌}
use mathlib.Core.Bool.{Bool, true, false, ◌&&◌, ◌||◌}
use mathlib.Core.List.{List, [], ◌∷◌, ◌++◌}
use native.Mathlib.Omega.{arith}
use text.Mathlib.Text.{◌==◌}
use text.Mathlib.TextEquality.{eq_iff}
use pcs_core.Prelude.Tests.{Bool-cases}

module _ {ℓ} {A : Type ℓ} where
  abbrev pub length : List A → ℕ
  length [] = 0
  length (x ∷ xs) = suc (length xs)

  pub length-append : (xs ys : List A) → length (xs ++ ys) ≡ length xs + length ys
  length-append [] ys = omega arith
  length-append (x ∷ xs) ys = omega (arith, length-append xs ys)

  abbrev pub any : (A → Bool) → List A → Bool
  any p [] = false
  any p (x ∷ xs) = p x || any p xs

  abbrev pub all : (A → Bool) → List A → Bool
  all p [] = true
  all p (x ∷ xs) = p x && all p xs

abbrev pub All {ℓ κ} : {A : Type ℓ} → (A → Type κ) → List A → Type κ
All P [] = Unit
All P (x ∷ xs) = P x × All P xs

-- Python's `x in xs` on a list of texts.
abbrev pub elem : String → List String → Bool
elem x xs = any (λ y. y == x) xs

-- x is an entry of the list.
abbrev pub OneOf : {A : Type 0} → A → List A → Type 0
OneOf x [] = ⊥
OneOf x (y ∷ ys) = (x ≡ y) ⊎ OneOf x ys

elem_sound : (x : String) (xs : List String) → elem x xs ≡ true → OneOf x xs
elem_sound x [] h = cc
elem_sound x (y ∷ ys) h = elim (Bool-cases (y == x)) [
  | inl e ↦ inl (sym ((eq_iff y x).0 e))
  | inr e ↦ inr (elem_sound x ys (sym (rw e refl) ∙ h))
]

elem_complete : (x : String) (xs : List String) → OneOf x xs → elem x xs ≡ true
elem_complete x [] m = absurd m
elem_complete x (y ∷ ys) (inl e) = rw ((eq_iff y x).1 (sym e)) refl
elem_complete x (y ∷ ys) (inr m) = ground (arith, elem_complete x ys m)

-- The search by == finds exactly the entries.
pub elem_iff : (x : String) (xs : List String) → (elem x xs ≡ true) ↔ OneOf x xs
elem_iff x xs = (elem_sound x xs, elem_complete x xs)

-- sep.join(xs)
abbrev pub join : String → List String → String
join sep [] = ""
join sep (x ∷ []) = x
join sep (x ∷ y ∷ xs) = str_append x (str_append sep (join sep (y ∷ xs)))

-- `if test: xs.append(x)` as the list of what is appended.
abbrev pub when {ℓ} : {A : Type ℓ} → Bool → A → List A
when true x = x ∷ []
when false x = []
