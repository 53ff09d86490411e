-- ===== src/Runtime/Principal/Expansion.antt =====
-- Which capability ids a principal holds, and that its normal form lists them all.
use mathlib.Core.List.{foldl}
use pcs_core.Prelude.{
  String, List, [], ◌∷◌, ◌++◌, ◌≡◌, refl, ap, ◌∙◌, Option, none, some, Bool, true, false, ◌&&◌,
  ◌||◌, ◌==◌, starts_with, arith, eq_iff, eq_refl, elem, any, all, Bool-cases, inl, inr,
}
use pcs_core.Catalog.{role_capabilities}
use pcs_core.Runtime.Principal.{add_granted, add_new, add_role, expand_ids, same_set}

abbrev granted_of : String → String → Option (List String) → Bool
granted_of c role (some caps) = elem c caps
granted_of c role none = starts_with role "cap:" && role == c

-- A catalogued role grants the ids of its row, and another role that begins with "cap:" itself.
abbrev pub role_grants : String → String → Bool
role_grants c role = granted_of c role (role_capabilities role)

or_assoc : (a b c : Bool) → ((a || b) || c) ≡ (a || (b || c))
or_assoc a b c = ground arith

elem-append : (c : String) (xs ys : List String) → elem c (xs ++ ys) ≡ (elem c xs || elem c ys)
elem-append c [] ys = refl
elem-append c (x ∷ xs) ys = ground (arith, elem-append c xs ys)

elem-add_new :
    (c : String) (ids : List String) (d : String) → elem c (add_new ids d) ≡ (elem c ids || d == c)
unfolding add_new
elem-add_new c ids d = ground (arith, elem-append c ids (d ∷ []), eq_iff d c)

elem-foldl-add_new :
    (c : String) (ids caps : List String)
    → elem c (foldl add_new ids caps) ≡ (elem c ids || elem c caps)
elem-foldl-add_new c ids [] = ground arith
elem-foldl-add_new c ids (d ∷ caps) =
    ground (arith, elem-foldl-add_new c (add_new ids d) caps, elem-add_new c ids d)

elem-add_granted :
    (c : String) (ids : List String) (role : String) (row : Option (List String))
    → elem c (add_granted ids role row) ≡ (elem c ids || granted_of c role row)
elem-add_granted c ids role (some caps) = elem-foldl-add_new c ids caps
elem-add_granted c ids role none = ground (arith, elem-add_new c ids role)

elem-add_role :
    (c : String) (ids : List String) (role : String)
    → elem c (add_role ids role) ≡ (elem c ids || role_grants c role)
unfolding add_role
elem-add_role c ids role = elem-add_granted c ids role (role_capabilities role)

elem-foldl-add_role :
    (c : String) (ids roles : List String)
    → elem c (foldl add_role ids roles) ≡ (elem c ids || any (role_grants c) roles)
elem-foldl-add_role c ids [] = ground arith
elem-foldl-add_role c ids (role ∷ roles) =
    elem-foldl-add_role c (add_role ids role) roles
    ∙ ap (λ b. b || any (role_grants c) roles) (elem-add_role c ids role)
    ∙ or_assoc (elem c ids) (role_grants c role) (any (role_grants c) roles)

-- The expansion lists an id exactly when it is given directly or some role grants it.
pub elem-expand_ids :
    (c : String) (roles caps : List String)
    → elem c (expand_ids roles caps) ≡ (any (role_grants c) roles || elem c caps)
unfolding expand_ids
elem-expand_ids c roles caps =
    elem-foldl-add_new c (foldl add_role [] roles) caps
    ∙ ap (λ b. b || elem c caps) (elem-foldl-add_role c [] roles)

abbrev pub HasNoRepeats : List String → Type 0
HasNoRepeats [] = Unit
HasNoRepeats (x ∷ xs) = (elem x xs ≡ false) × HasNoRepeats xs

HasNoRepeats-snoc :
    (xs : List String) (d : String)
    → HasNoRepeats xs
    → elem d xs ≡ false
    → HasNoRepeats (xs ++ d ∷ [])
HasNoRepeats-snoc [] d h e = (refl, tt)
HasNoRepeats-snoc (x ∷ xs) d h e = (
  ground (arith, elem-append x xs (d ∷ []), eq_iff x d, eq_iff d x),
  HasNoRepeats-snoc xs d h.1 (ground arith),
)

HasNoRepeats-add_new :
    (ids : List String) (d : String) → HasNoRepeats ids → HasNoRepeats (add_new ids d)
unfolding add_new
HasNoRepeats-add_new ids d h = elim (Bool-cases (elem d ids)) [
  | inl e ↦ rw e h
  | inr e ↦ rw e (HasNoRepeats-snoc ids d h e)
]

HasNoRepeats-foldl :
    (ids caps : List String) → HasNoRepeats ids → HasNoRepeats (foldl add_new ids caps)
HasNoRepeats-foldl ids [] h = h
HasNoRepeats-foldl ids (d ∷ caps) h =
    HasNoRepeats-foldl (add_new ids d) caps (HasNoRepeats-add_new ids d h)

HasNoRepeats-add_granted :
    (ids : List String) (role : String) (row : Option (List String))
    → HasNoRepeats ids
    → HasNoRepeats (add_granted ids role row)
HasNoRepeats-add_granted ids role (some caps) h = HasNoRepeats-foldl ids caps h
HasNoRepeats-add_granted ids role none h = elim (Bool-cases (starts_with role "cap:")) [
  | inl e ↦ rw e (HasNoRepeats-add_new ids role h)
  | inr e ↦ rw e h
]

HasNoRepeats-roles :
    (ids roles : List String) → HasNoRepeats ids → HasNoRepeats (foldl add_role ids roles)
HasNoRepeats-roles ids [] h = h
HasNoRepeats-roles ids (role ∷ roles) h =
    HasNoRepeats-roles (add_role ids role) roles
      (unfold add_role in HasNoRepeats-add_granted ids role (role_capabilities role) h)

-- The expansion lists no id twice, whatever the roles and the given ids repeat.
pub expand_ids-HasNoRepeats : (roles caps : List String) → HasNoRepeats (expand_ids roles caps)
unfolding expand_ids
expand_ids-HasNoRepeats roles caps =
    HasNoRepeats-foldl (foldl add_role [] roles) caps (HasNoRepeats-roles [] roles tt)

all-elem :
    (xs ys : List String)
    → ((c : String) → elem c xs ≡ true → elem c ys ≡ true)
    → all (λ x. elem x ys) xs ≡ true
all-elem [] ys h = refl
all-elem (x ∷ xs) ys h =
    rw (h x (ground (arith, eq_refl x)), all-elem xs ys (λ c m. h c (ground arith)))

-- Expanding once more, with the expanded ids as the given ones, adds nothing.
pub expand_ids_again :
    (roles caps : List String)
    → same_set (expand_ids roles caps) (expand_ids roles (expand_ids roles caps)) ≡ true
unfolding same_set
expand_ids_again roles caps = rw (
  all-elem (expand_ids roles caps) (expand_ids roles (expand_ids roles caps))
      (λ c m. ground (arith, elem-expand_ids c roles (expand_ids roles caps))),
  all-elem (expand_ids roles (expand_ids roles caps)) (expand_ids roles caps) (λ c m.
      ground
        (arith, elem-expand_ids c roles (expand_ids roles caps), elem-expand_ids c roles caps)),
)
