-- ===== src/Registry/Entries.antt =====
-- The entry and the context that registry_data.py takes for a kind of artifact.
use pcs_core.Prelude.{
  String, List, [], ◌∷◌, ◌≡◌, ◌≢◌, ◌⊎◌, inl, inr, refl, ap, Bool-cases, Option, none, some, Bool,
  true, false, ◌==◌, arith, eq_iff, if◌then◌else◌,
}
use pcs_core.Json.{Value, Fields, end, field}
use pcs_core.Host.{Host}
use pcs_core.Registry.{find_entry, context_or, or_empty}

-- The first entry of the kind.
abbrev pub HasEntry : String → List (String × Fields) → Fields → Type 0
HasEntry kind [] entry = ⊥
HasEntry kind ((k, e) ∷ rest) entry =
    ((k ≡ kind) × (e ≡ entry)) ⊎ ((k ≢ kind) × HasEntry kind rest entry)

found_first :
    (b : Bool) (f e : Fields) (o : Option Fields)
    → b ≡ true
    → (if b then some f else o) ≡ some e
    → f ≡ e
found_first true f e o t h = cc
found_first false f e o t h = cc

found_later :
    (b : Bool) (f e : Fields) (o : Option Fields)
    → b ≡ false
    → (if b then some f else o) ≡ some e
    → o ≡ some e
found_later true f e o t h = cc
found_later false f e o t h = h

differ : (k kind : String) → (k == kind) ≡ false → k ≢ kind
differ k kind t = λ p. cc (t, (eq_iff k kind).1 p)

same_not : (k kind : String) → k ≢ kind → (k == kind) ≡ false
same_not k kind n = ground (arith, eq_iff k kind)

-- There is no context, or an empty one.
abbrev pub IsMissing : Option Fields → Type 0
IsMissing (some (field k v fs)) = ⊥
IsMissing _ = Unit

-- The context that is used: the one given, unless it is missing or empty, or the entry of the registry,
-- or an empty one.
pub data IsContext (entries : List (String × Fields)) (kind : String)
    : Option Fields → Fields → Type 0 where
  given_context :
      (k : String) (v : Value) (fs : Fields)
      → IsContext entries kind (some (field k v fs)) (field k v fs)
  registered :
      (o : Option Fields) (entry : Fields)
      → IsMissing o
      → HasEntry kind entries entry
      → IsContext entries kind o entry
  unregistered :
      (o : Option Fields)
      → IsMissing o
      → ((entry : Fields) → HasEntry kind entries entry → ⊥)
      → IsContext entries kind o end

pub find_sound :
    (kind : String) (entries : List (String × Fields)) (e : Fields)
    → find_entry kind entries ≡ some e
    → HasEntry kind entries e
unfolding find_entry
find_sound kind [] e h = cc
find_sound kind ((k, f) ∷ rest) e h = elim (Bool-cases (k == kind)) [
  | inl t ↦ inl ((eq_iff k kind).0 t, found_first (k == kind) f e _ t h)
  | inr t ↦ inr (differ k kind t, find_sound kind rest e (found_later (k == kind) f e _ t h))
]

pub find_complete :
    (kind : String) (entries : List (String × Fields)) (e : Fields)
    → HasEntry kind entries e
    → find_entry kind entries ≡ some e
unfolding find_entry
find_complete kind [] e h = absurd h
find_complete kind ((k, f) ∷ rest) e (inl (p, q)) = rw ((eq_iff k kind).1 p) (ap some q)
find_complete kind ((k, f) ∷ rest) e (inr (n, m)) =
    rw (same_not k kind n) (find_complete kind rest e m)

module _ ⦃py : Host⦄ where
  missing_sound :
      (entries : List (String × Fields)) (kind : String) (o found : Option Fields)
      → IsMissing o
      → find_entry kind entries ≡ found
      → IsContext entries kind o (or_empty found)
  missing_sound entries kind o (some entry) missing e =
      registered o entry missing (find_sound kind entries entry e)
  missing_sound entries kind o none missing e =
      unregistered o missing (λ entry m. cc (e, find_complete kind entries entry m))

  pub context_or-IsContext :
      (entries : List (String × Fields)) (kind : String) (o : Option Fields)
      → IsContext entries kind o (context_or entries kind o)
  context_or-IsContext entries kind (some (field k v fs)) = given_context k v fs
  context_or-IsContext entries kind none = missing_sound entries kind none _ tt refl
  context_or-IsContext entries kind (some end) = missing_sound entries kind (some end) _ tt refl

  when_missing :
      (entries : List (String × Fields)) (kind : String) (o found : Option Fields)
      → IsMissing o
      → find_entry kind entries ≡ found
      → context_or entries kind o ≡ or_empty found
  when_missing entries kind (some (field k v fs)) found missing e = absurd missing
  when_missing entries kind none found missing e = ap or_empty e
  when_missing entries kind (some end) found missing e = ap or_empty e

  unfound :
      (entries : List (String × Fields)) (kind : String) (found : Option Fields)
      → find_entry kind entries ≡ found
      → ((entry : Fields) → HasEntry kind entries entry → ⊥)
      → found ≡ none
  unfound entries kind none e n = refl
  unfound entries kind (some entry) e n = absurd (n entry (find_sound kind entries entry e))

  pub context_or-eq :
      (entries : List (String × Fields)) (kind : String) (o : Option Fields) (context : Fields)
      → IsContext entries kind o context
      → context_or entries kind o ≡ context
  context_or-eq entries kind o context (given_context k v fs) = refl
  context_or-eq entries kind o context (registered p entry missing m) =
      when_missing entries kind p (some entry) missing (find_complete kind entries entry m)
  context_or-eq entries kind o context (unregistered p missing n) =
      when_missing entries kind p none missing (unfound entries kind _ refl n)
