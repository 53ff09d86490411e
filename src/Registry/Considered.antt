-- ===== src/Registry/Considered.antt =====
-- Which checks of the registry registry_data.py looks at, described without the lists that it builds.
use pcs_core.Prelude.{
  String, List, [], ◌∷◌, ◌≡◌, ◌⊎◌, inl, inr, refl, sym, ◌∙◌, subst, Option, none, some, Bool, true,
  OneOf, elem_iff, or_cases, or_left, or_right,
}
use pcs_core.Json.{Value, obj, Fields, as_list, truthy}
use pcs_core.Json.Dict.{get}
use pcs_core.Json.Text.{text_or}
use pcs_core.Host.{Host}
use pcs_core.Registry.{
  find_entry, dicts_where, is_skippable, is_deferrable, deferrable_check_ids, or_registered,
  deferred_of, deferred_registry_obligations, checks_where, deferred_in,
}
use pcs_core.Registry.Entries.{HasEntry, find_sound, find_complete}
use pcs_core.Registry.Listed.{where_sound, where_complete}

some_inj : {A : Type 0} {x y : A} → some x ≡ some y → x ≡ y
some_inj h = cc h

module _ ⦃py : Host⦄ where
  -- The check is a dictionary of the list.
  abbrev pub Lists : Value → Fields → Type 0
  Lists v check = (vs : List Value) × (as_list v ≡ some vs) × OneOf (obj check) vs

  -- The context lists the check as one that may be skipped.
  abbrev pub InContext : Fields → Fields → Type 0
  InContext context check =
      Lists (get "semantic_checks" context) check × (truthy (get "allowed_to_skip" check) ≡ true)

  -- The entry of the registry lists the check as one that may be skipped, or it is one of the two on
  -- Lean.
  abbrev pub InRegistry : Fields → Fields → Type 0
  InRegistry entry check =
      Lists (get "semantic_checks" entry) check
      × ((truthy (get "allowed_to_skip" check) ≡ true)
          ⊎ OneOf (text_or "" (get "check_id" check))
              ("lean_kernel_proof" ∷ "lean_library_build" ∷ []))

  -- The checks that are looked at: those of the context or, when it has none, those of the registry.
  pub data IsConsidered (entries : List (String × Fields)) (kind : String) (context check : Fields)
      : Type 0 where
    in_context : InContext context check → IsConsidered entries kind context check
    in_registry :
        (entry : Fields)
        → ((c : Fields) → InContext context c → ⊥)
        → HasEntry kind entries entry
        → InRegistry entry check
        → IsConsidered entries kind context check

  checks_sound :
      (test : Fields → Bool) (check : Fields) (v : Value) (o : Option (List Value))
      → as_list v ≡ o
      → OneOf check (checks_where test o)
      → Lists v check × (test check ≡ true)
  checks_sound test check v none e m = absurd m
  checks_sound test check v (some vs) e m =
      let (found, t) = where_sound test check vs m in ((vs, e, found), t)

  marked_sound :
      (check : Fields)
      → is_deferrable check ≡ true
      → (truthy (get "allowed_to_skip" check) ≡ true)
        ⊎ OneOf
            (text_or "" (get "check_id" check))
            ("lean_kernel_proof" ∷ "lean_library_build" ∷ [])
  marked_sound check h = elim (or_cases (is_skippable check) _ h) [
    | inl t ↦ inl t
    | inr t ↦ inr ((elem_iff (text_or "" (get "check_id" check)) deferrable_check_ids).0 t)
  ]

  marked_complete :
      (check : Fields)
      → (truthy (get "allowed_to_skip" check) ≡ true)
        ⊎ OneOf
            (text_or "" (get "check_id" check))
            ("lean_kernel_proof" ∷ "lean_library_build" ∷ [])
      → is_deferrable check ≡ true
  marked_complete check (inl t) = or_left (is_skippable check) _ t
  marked_complete check (inr m) =
      or_right (is_skippable check) _
        ((elem_iff (text_or "" (get "check_id" check)) deferrable_check_ids).1 m)

  entry_sound :
      (entries : List (String × Fields)) (kind : String) (check : Fields) (o : Option Fields)
      → find_entry kind entries ≡ o
      → OneOf check (deferred_in o)
      → (entry : Fields) × HasEntry kind entries entry × InRegistry entry check
  entry_sound entries kind check none e m = absurd m
  entry_sound entries kind check (some entry) e m =
      let (listed, t) = checks_sound is_deferrable check (get "semantic_checks" entry) _ refl m in
      (entry, find_sound kind entries entry e, (listed, marked_sound check t))

  deferred_sound :
      (entries : List (String × Fields)) (kind : String) (check : Fields)
      → OneOf check (deferred_registry_obligations entries kind)
      → (entry : Fields) × HasEntry kind entries entry × InRegistry entry check
  unfolding deferred_registry_obligations
  deferred_sound entries kind check m = entry_sound entries kind check _ refl m

  deferred_complete :
      (entries : List (String × Fields)) (kind : String) (check entry : Fields)
      → HasEntry kind entries entry
      → InRegistry entry check
      → OneOf check (deferred_registry_obligations entries kind)
  unfolding deferred_registry_obligations
  deferred_complete entries kind check entry found ((vs, listed, m), marked) =
      rw (find_complete kind entries entry found, listed)
        (where_complete is_deferrable check vs m (marked_complete check marked))

  not_listed :
      (context : Fields)
      → as_list (get "semantic_checks" context) ≡ none
      → (c : Fields) → InContext context c
      → ⊥
  not_listed context e c ((vs, listed, m), t) = cc (e, listed)

  none_marked :
      (context : Fields) (vs : List Value)
      → as_list (get "semantic_checks" context) ≡ some vs
      → dicts_where is_skippable vs ≡ []
      → (c : Fields) → InContext context c
      → ⊥
  none_marked context vs e nothing c ((ws, listed, m), t) =
      subst (λ l. OneOf c l) nothing
        (where_complete is_skippable c vs
          (subst (λ l. OneOf (obj c) l) (some_inj (sym listed ∙ e)) m) t)

  from_registry :
      (entries : List (String × Fields)) (kind : String) (context check : Fields)
      → ((c : Fields) → InContext context c → ⊥)
      → OneOf check (deferred_registry_obligations entries kind)
      → IsConsidered entries kind context check
  from_registry entries kind context check unmarked m =
      let (entry, found, r) = deferred_sound entries kind check m in
      in_registry entry unmarked found r

  registered_self :
      (entries : List (String × Fields)) (kind : String) (checks : List Fields)
      → deferred_registry_obligations entries kind ≡ checks
      → or_registered entries kind checks ≡ deferred_registry_obligations entries kind
  registered_self entries kind [] e = refl
  registered_self entries kind (c ∷ cs) e = sym e

  chosen_sound :
      (entries : List (String × Fields)) (kind : String) (context check : Fields) (vs : List Value)
      (checks : List Fields)
      → as_list (get "semantic_checks" context) ≡ some vs
      → dicts_where is_skippable vs ≡ checks
      → OneOf check (or_registered entries kind checks)
      → IsConsidered entries kind context check
  chosen_sound entries kind context check vs [] listed e m =
      from_registry entries kind context check (none_marked context vs listed e) m
  chosen_sound entries kind context check vs (c ∷ cs) listed e m =
      let (found, t) = where_sound is_skippable check vs (subst (λ l. OneOf check l) (sym e) m) in
      in_context ((vs, listed, found), t)

  pub IsConsidered-sound :
      (entries : List (String × Fields)) (kind : String) (context check : Fields)
      (o : Option (List Value))
      → as_list (get "semantic_checks" context) ≡ o
      → OneOf check (or_registered entries kind (deferred_of entries kind o))
      → IsConsidered entries kind context check
  IsConsidered-sound entries kind context check none e m =
      from_registry entries kind context check (not_listed context e)
        (subst (λ l. OneOf check l) (registered_self entries kind _ refl) m)
  IsConsidered-sound entries kind context check (some vs) e m =
      chosen_sound entries kind context check vs _ e refl m

  chosen_complete :
      (entries : List (String × Fields)) (kind : String) (context check : Fields) (vs : List Value)
      (checks : List Fields)
      → as_list (get "semantic_checks" context) ≡ some vs
      → dicts_where is_skippable vs ≡ checks
      → ((c : Fields) → InContext context c → ⊥)
      → OneOf check (deferred_registry_obligations entries kind)
      → OneOf check (or_registered entries kind checks)
  chosen_complete entries kind context check vs [] listed e unmarked m = m
  chosen_complete entries kind context check vs (c ∷ cs) listed e unmarked m =
      let (found, t) = where_sound is_skippable c vs (subst (λ l. OneOf c l) (sym e) (inl refl)) in
      absurd (unmarked c ((vs, listed, found), t))

  registered_keeps :
      (entries : List (String × Fields)) (kind : String) (check : Fields) (checks : List Fields)
      → OneOf check checks
      → OneOf check (or_registered entries kind checks)
  registered_keeps entries kind check [] m = absurd m
  registered_keeps entries kind check (c ∷ cs) m = m

  pub IsConsidered-complete :
      (entries : List (String × Fields)) (kind : String) (context check : Fields)
      (o : Option (List Value))
      → as_list (get "semantic_checks" context) ≡ o
      → IsConsidered entries kind context check
      → OneOf check (or_registered entries kind (deferred_of entries kind o))
  IsConsidered-complete entries kind context check o e (in_context ((vs, listed, m), t)) =
      subst (λ p. OneOf check (or_registered entries kind (deferred_of entries kind p)))
        (sym listed ∙ e)
        (registered_keeps entries kind check _ (where_complete is_skippable check vs m t))
  IsConsidered-complete entries kind context check none e (in_registry entry unmarked found r) =
      subst (λ l. OneOf check l) (sym (registered_self entries kind _ refl))
        (deferred_complete entries kind check entry found r)
  IsConsidered-complete entries kind context check (some vs) e
        (in_registry entry unmarked found r) =
      chosen_complete entries kind context check vs _ e refl unmarked
        (deferred_complete entries kind check entry found r)
