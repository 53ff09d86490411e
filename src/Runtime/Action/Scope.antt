-- ===== src/Runtime/Action/Scope.antt =====
-- A validated action stays within the pattern of its catalogued capability.
use pcs_core.Prelude.{
  ℕ, suc, String, List, [], ◌∷◌, ◌≡◌, refl, subst, ◌↔◌, ◌⊎◌, inl, inr, Option, none, some, All,
  true, false, not, ◌&&◌, ◌==◌, arith, eq_iff, Bool-cases, Result, ok, err, ◌>>◌, bind_ok, raise_if,
}
use pcs_core.Json.{Value, obj, Fields, as_dict, as_list}
use pcs_core.Json.Dict.{get}
use pcs_core.Json.Text.{text_or}
use pcs_core.Host.{Host}
use pcs_core.Runtime.{RuntimeError}
use pcs_core.Runtime.Glob.{resource_matches_pattern}
use pcs_core.Runtime.Action.{
  check_scope, scope_of_key, scope_of_capability, validate_resource_scope, validate_action,
  capability_of, effects_of, footprint,
}

module _ ⦃py : Host⦄ where
  -- A resource without a uri, or one whose uri matches.
  abbrev pub IsInScope : String → Value → Type 0
  IsInScope pattern (obj r) =
      (text_or "" (get "uri" r) ≡ "")
      ⊎ (resource_matches_pattern (text_or "" (get "uri" r)) pattern ≡ true)
  IsInScope pattern _ = Unit

  abbrev pub AllInScope : String → Option (List Value) → Type 0
  AllInScope pattern none = Unit
  AllInScope pattern (some resources) = All (IsInScope pattern) resources

  abbrev pub ScopeOf : Fields → Option Fields → Type 0
  ScopeOf action none = Unit
  ScopeOf action (some cap) =
      (text_or "" (get "resource_pattern" cap) ≡ "")
      ⊎ (AllInScope (text_or "" (get "resource_pattern" cap)) (as_list (get "reads" action))
          × AllInScope (text_or "" (get "resource_pattern" cap)) (as_list (get "writes" action)))

  head_in_scope :
      (uri pattern : String) (e : RuntimeError) (k : Result RuntimeError (Unit {0}))
      → (raise_if (not (uri == "") && not (resource_matches_pattern uri pattern)) e >> k) ≡ ok tt
      → ((uri ≡ "") ⊎ (resource_matches_pattern uri pattern ≡ true)) × (k ≡ ok tt)
  head_in_scope uri pattern e k h = ground (arith, eq_iff uri "")

  in_scope_head :
      (uri pattern : String)
      → (uri ≡ "") ⊎ (resource_matches_pattern uri pattern ≡ true)
      → (not (uri == "") && not (resource_matches_pattern uri pattern)) ≡ false
  in_scope_head uri pattern h = ground (arith, eq_iff uri "")

  check_scope_sound :
      (pattern path : String) (i : ℕ) (rs : List Value)
      → check_scope pattern path i rs ≡ ok tt
      → All (IsInScope pattern) rs
  unfolding check_scope
  check_scope_sound pattern path i [] h = tt
  check_scope_sound pattern path i (obj r ∷ rs) h =
      let (first, more) = head_in_scope _ pattern _ (check_scope pattern path (suc i) rs) h in
      (first, check_scope_sound pattern path (suc i) rs more)
  check_scope_sound pattern path i (_ ∷ rs) h = (tt, check_scope_sound pattern path (suc i) rs h)

  check_scope_complete :
      (pattern path : String) (i : ℕ) (rs : List Value)
      → All (IsInScope pattern) rs
      → check_scope pattern path i rs ≡ ok tt
  unfolding check_scope
  check_scope_complete pattern path i [] h = refl
  check_scope_complete pattern path i (obj r ∷ rs) h =
      rw (in_scope_head (text_or "" (get "uri" r)) pattern h.0)
        (check_scope_complete pattern path (suc i) rs h.1)
  check_scope_complete pattern path i (_ ∷ rs) h = check_scope_complete pattern path (suc i) rs h.1

  key_sound :
      (pattern path : String) (o : Option (List Value))
      → scope_of_key pattern path o ≡ ok tt
      → AllInScope pattern o
  key_sound pattern path none h = tt
  key_sound pattern path (some rs) h = check_scope_sound pattern path 0 rs h

  key_complete :
      (pattern path : String) (o : Option (List Value))
      → AllInScope pattern o
      → scope_of_key pattern path o ≡ ok tt
  key_complete pattern path none h = refl
  key_complete pattern path (some rs) h = check_scope_complete pattern path 0 rs h

  both_ok : (m k : Result RuntimeError (Unit {0})) → (m >> k) ≡ ok tt → (m ≡ ok tt) × (k ≡ ok tt)
  both_ok (ok u) k h = (refl, h)
  both_ok (err e) k h = cc

  scope_sound :
      (path : String) (action : Fields) (o : Option Fields)
      → scope_of_capability path action o ≡ ok tt
      → ScopeOf action o
  scope_sound path action none h = tt
  scope_sound path action (some cap) h =
      let pattern = text_or "" (get "resource_pattern" cap) in
      elim (Bool-cases (pattern == "")) [
        | inl e ↦ inl ((eq_iff pattern "").0 e)
        | inr e ↦
            let (r, w) = both_ok _ _ (rw e at h) in
            inr (
              key_sound pattern _ (as_list (get "reads" action)) r,
              key_sound pattern _ (as_list (get "writes" action)) w,
            )
      ]

  scope_complete :
      (path : String) (action : Fields) (o : Option Fields)
      → ScopeOf action o
      → scope_of_capability path action o ≡ ok tt
  scope_complete path action none h = refl
  scope_complete path action (some cap) (inl e) =
      rw ((eq_iff (text_or "" (get "resource_pattern" cap)) "").1 e) refl
  scope_complete path action (some cap) (inr h) =
      let pattern = text_or "" (get "resource_pattern" cap) in
      elim (Bool-cases (pattern == "")) [
        | inl e ↦ rw e refl
        | inr e ↦
            rw (e, key_complete pattern _ (as_list (get "reads" action)) h.0)
              (key_complete pattern _ (as_list (get "writes" action)) h.1)
      ]

  -- The scope check accepts an action exactly when its capability names no pattern, or each resource
  -- that it reads or writes and that has a uri matches the pattern; the path is only for messages.
  pub validate_resource_scope_iff :
      (path : String) (action : Fields)
      → (validate_resource_scope path action ≡ ok tt)
        ↔ ScopeOf action (as_dict (get "capability" action))
  unfolding validate_resource_scope
  validate_resource_scope_iff path action = (
    scope_sound path action (as_dict (get "capability" action)),
    scope_complete path action (as_dict (get "capability" action)),
  )

  scoped_result :
      (m : Result RuntimeError (Unit {0})) (n : Fields) (action : Fields)
      → (m >> ok n) ≡ ok action
      → (m ≡ ok tt) × (n ≡ action)
  scoped_result (ok u) n action h = (refl, cc)
  scoped_result (err e) n action h = cc

  -- A normalised action lies within the pattern of its capability.
  pub validate_action-scope :
      (path : String) (raw action : Fields)
      → validate_action path raw ≡ ok action
      → ScopeOf action (as_dict (get "capability" action))
  unfolding validate_action
  validate_action-scope path raw action h =
      let (cap, _, h₁) = bind_ok (capability_of path (as_dict (get "capability" raw))) _ h in
      let (kinds, _, h₂) = bind_ok (effects_of path (as_list (get "effects" raw))) _ h₁ in
      let (feet, _, h₃) = bind_ok (footprint path raw) _ h₂ in
      let (checked, same) = scoped_result _ _ action h₃ in
      subst (λ a. ScopeOf a (as_dict (get "capability" a))) same
        ((validate_resource_scope_iff path _).0 checked)
