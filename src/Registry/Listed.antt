-- ===== src/Registry/Listed.antt =====
-- The dictionaries of a list that pass a test, as the comprehensions of registry_data.py pick them.
use pcs_core.Prelude.{
  List, [], ◌∷◌, ◌++◌, ◌≡◌, ◌⊎◌, inl, inr, refl, ap, ◌∙◌, subst, Bool, true, false, OneOf, when,
}
use pcs_core.Json.{Value, obj, Fields}
use pcs_core.Host.{Host}
use pcs_core.Registry.{dicts_where}

OneOf-when : {A : Type 0} (b : Bool) (x y : A) (ys : List A) → OneOf x ys → OneOf x (when b y ++ ys)
OneOf-when true x y ys m = inr m
OneOf-when false x y ys m = m

OneOf-of_when :
    {A : Type 0} (b : Bool) (x y : A) (ys : List A)
    → OneOf x (when b y ++ ys)
    → ((x ≡ y) × (b ≡ true)) ⊎ OneOf x ys
OneOf-of_when true x y ys (inl e) = inl (e, refl)
OneOf-of_when true x y ys (inr m) = inr m
OneOf-of_when false x y ys m = inr m

module _ ⦃py : Host⦄ where
  pub where_sound :
      (test : Fields → Bool) (check : Fields) (vs : List Value)
      → OneOf check (dicts_where test vs)
      → OneOf (obj check) vs × (test check ≡ true)
  where_sound test check [] m = absurd m
  where_sound test check (obj c ∷ rest) m = elim (OneOf-of_when (test c) check c _ m) [
    | inl (e, t) ↦ (inl (ap obj e), ap test e ∙ t)
    | inr n ↦ let (found, t) = where_sound test check rest n in (inr found, t)
  ]
  where_sound test check (v ∷ rest) m =
      let (found, t) = where_sound test check rest m in (inr found, t)

  pub where_complete :
      (test : Fields → Bool) (check : Fields) (vs : List Value)
      → OneOf (obj check) vs
      → test check ≡ true
      → OneOf check (dicts_where test vs)
  where_complete test check [] m t = absurd m
  where_complete test check (v ∷ rest) (inl e) t =
      subst (λ w. OneOf check (dicts_where test (w ∷ rest))) e (rw t (inl refl))
  where_complete test check (obj c ∷ rest) (inr m) t =
      OneOf-when (test c) check c _ (where_complete test check rest m t)
  where_complete test check (v ∷ rest) (inr m) t = where_complete test check rest m t
