-- ===== src/Contract/Pre.antt =====
-- The evaluation of a precondition decides its meaning.
use pcs_core.Prelude.{
  String, List, [], ◌∷◌, ◌≡◌, refl, sym, ap, ◌∙◌, ◌↔◌, inl, inr, Option, none, some, Bool, true,
  false, not, ◌&&◌, ◌||◌, ◌==◌, map, when, any, Result, ok, bind_ok, arith, eq_iff, or_left,
  or_right, or_cases,
}
use pcs_core.Json.{Value, null, bool, int, float, str, arr, obj, Fields, as_list}
use pcs_core.Json.Dict.{get}
use pcs_core.Json.Text.{text_or, str_of}
use pcs_core.Host.{Host}
use pcs_core.Runtime.{RuntimeError}
use pcs_core.Runtime.Principal.{expand_principal_capabilities}
use pcs_core.Runtime.Tenant.{same_tenant}
use pcs_core.Runtime.Tenant.Ownership.{same_tenant_iff}
use pcs_core.Runtime.Chain.Meaning.{nil_of_append, when-eq-nil}
use pcs_core.Contract.Event.{
  ContractIssue, required_text, lists, principal_has_capability, is_effect, effect_among,
  action_has_effect, tenant_issues, unmet, capability_issues, pre_issues,
}
use pcs_core.Contract.Meaning.{Any, Requires, Mentions, IsEffect, HasEffect, Holds, MeetsPre}

module _ {ℓ} {A : Type ℓ} (test : A → Bool) (P : A → Type 0)
    (each : (x : A) → (test x ≡ true) ↔ P x) where
  any_sound : (xs : List A) → any test xs ≡ true → Any P xs
  any_sound [] h = cc
  any_sound (x ∷ xs) h = elim (or_cases (test x) (any test xs) h) [
    | inl e ↦ inl ((each x).0 e)
    | inr e ↦ inr (any_sound xs e)
  ]

  any_complete : (xs : List A) → Any P xs → any test xs ≡ true
  any_complete [] h = elim h [ ]
  any_complete (x ∷ xs) (inl p) = or_left (test x) (any test xs) ((each x).1 p)
  any_complete (x ∷ xs) (inr m) = or_right (test x) (any test xs) (any_complete xs m)

any-map {ℓ κ} :
    {A : Type ℓ} {B : Type κ} (test : B → Bool) (f : A → B) (xs : List A)
    → any test (map f xs) ≡ any (λ x. test (f x)) xs
any-map test f [] = refl
any-map test f (x ∷ xs) = ap (λ b. test (f x) || b) (any-map test f xs)

when-nil {ℓ} : {A : Type ℓ} (b : Bool) (x : A) → b ≡ false → when b x ≡ []
when-nil true x h = cc
when-nil false x h = refl

pub unrefuted : (b : Bool) → not b ≡ false → b ≡ true
unrefuted b h = ground arith

pub guarded_sound : (a b c : Bool) → (a && b && not c) ≡ false → a ≡ true → b ≡ true → c ≡ true
guarded_sound a b c h p q = ground arith

guarded_complete : (a b c : Bool) → (a ≡ true → b ≡ true → c ≡ true) → (a && b && not c) ≡ false
guarded_complete true true c h = rw (h refl refl) refl
guarded_complete true false c h = refl
guarded_complete false b c h = refl

pub ok_list :
    {a b : List ContractIssue}
    → ◌≡◌ {A = Result RuntimeError (List ContractIssue)} (ok a) (ok b)
    → a ≡ b
ok_list h = cc

module _ ⦃py : Host⦄ where
  lists_iff : (r : String) (o : Option (List Value)) → (lists r o ≡ true) ↔ Mentions r o
  lists_iff r none = (λ h. cc, λ h. elim h [ ])
  lists_iff r (some vs) =
      let each = λ (v : Value). eq_iff (str_of v) r in
      (
        λ h.
            any_sound (λ v. str_of v == r) (λ v. str_of v ≡ r) each vs
              (sym (any-map (λ y. y == r) str_of vs) ∙ h),
        λ m.
            any-map (λ y. y == r) str_of vs
            ∙ any_complete (λ v. str_of v == r) (λ v. str_of v ≡ r) each vs m,
      )

  is_effect_iff : (k : String) (v : Value) → (is_effect k v ≡ true) ↔ IsEffect k v
  is_effect_iff k (obj e) = eq_iff (text_or "" (get "effect_kind" e)) k
  is_effect_iff k null = (λ h. cc, λ h. elim h [ ])
  is_effect_iff k (bool b) = (λ h. cc, λ h. elim h [ ])
  is_effect_iff k (int n) = (λ h. cc, λ h. elim h [ ])
  is_effect_iff k (float r) = (λ h. cc, λ h. elim h [ ])
  is_effect_iff k (str t) = (λ h. cc, λ h. elim h [ ])
  is_effect_iff k (arr vs) = (λ h. cc, λ h. elim h [ ])

  effect_iff : (k : String) (o : Option (List Value)) → (effect_among k o ≡ true) ↔ HasEffect k o
  effect_iff k none = (λ h. cc, λ h. elim h [ ])
  effect_iff k (some es) = (
    any_sound (is_effect k) (IsEffect k) (is_effect_iff k) es,
    any_complete (is_effect k) (IsEffect k) (is_effect_iff k) es,
  )

  pub unmet_sound :
      (o : Option String) (test : String → Bool) (P : String → Type 0)
      (report : String → ContractIssue)
      → ((r : String) → (test r ≡ true) ↔ P r)
      → unmet o test report ≡ []
      → Requires o P
  unmet_sound none test P report each h = tt
  unmet_sound (some r) test P report each h =
      (each r).0 (unrefuted (test r) (when-eq-nil (not (test r)) (report r) h))

  pub unmet_complete :
      (o : Option String) (test : String → Bool) (P : String → Type 0)
      (report : String → ContractIssue)
      → ((r : String) → (test r ≡ true) ↔ P r)
      → Requires o P
      → unmet o test report ≡ []
  unmet_complete none test P report each h = refl
  unmet_complete (some r) test P report each h =
      when-nil (not (test r)) (report r) (ap not ((each r).1 h))

  pub has_capability_sound :
      (p : Fields) (id : String) (b : Bool)
      → principal_has_capability p id ≡ ok b
      → b ≡ true
      → Holds p id
  unfolding principal_has_capability
  has_capability_sound p id b h t =
      let (held, e, made) = bind_ok (expand_principal_capabilities p) _ h in
      record { held = held; expands = e; has = bool_of made ∙ t }
    where
      bool_of : {x : Bool} → ◌≡◌ {A = Result RuntimeError Bool} (ok x) (ok b) → x ≡ b
      bool_of q = cc

  pub has_capability_complete :
      (p : Fields) (id : String) → Holds p id → principal_has_capability p id ≡ ok true
  unfolding principal_has_capability
  has_capability_complete p id h = rw (h.expands, h.has) refl

  capability_sound :
      (contract p : Fields) (path : String) (o : Option String) (issues : List ContractIssue)
      → capability_issues contract p path o ≡ ok issues
      → issues ≡ []
      → Requires o (Holds p)
  capability_sound contract p path none issues h e = tt
  capability_sound contract p path (some id) issues h e =
      let (b, has, made) = bind_ok (principal_has_capability p id) _ h in
      has_capability_sound p id b has (unrefuted b (when-eq-nil (not b) _ (ok_list made ∙ e)))

  capability_complete :
      (contract p : Fields) (path : String) (o : Option String)
      → Requires o (Holds p)
      → capability_issues contract p path o ≡ ok []
  capability_complete contract p path none h = refl
  capability_complete contract p path (some id) h = rw (has_capability_complete p id h) refl

  pub pre_sound :
      (contract event p a : Fields) (path : String) (pre : Fields)
      → pre_issues contract event p a path pre ≡ ok []
      → MeetsPre contract event p a pre
  unfolding pre_issues action_has_effect
  pre_sound contract event p a path pre h =
      let (cap_issues, capped, made) =
        bind_ok
          (capability_issues contract p path (required_text contract pre "require_capability")) _
          h in
      let (t, h₁) = nil_of_append (tenant_issues contract pre p a path) _ (ok_list made) in
      let (c, h₂) = nil_of_append cap_issues _ h₁ in
      let (e, h₃) = nil_of_append (unmet (required_text contract pre "require_effect") _ _) _ h₂ in
      let (r, h₄) = nil_of_append (unmet (required_text contract pre "require_role") _ _) _ h₃ in
      let (q, v) =
        nil_of_append (unmet (required_text contract pre "require_policy_ref") _ _) _ h₄ in
      record {
        tenant = λ wanted scoped.
            (same_tenant_iff p a).0
              (guarded_sound _ _ (same_tenant p a) (when-eq-nil _ _ t) wanted scoped);
        capability = capability_sound contract p path _ cap_issues capped c;
        effect = unmet_sound _ _ _ _ (λ k. effect_iff k (as_list (get "effects" a))) e;
        role = unmet_sound _ _ _ _ (λ x. lists_iff x (as_list (get "roles" p))) r;
        policy = unmet_sound _ _ _ _ (λ x. lists_iff x (as_list (get "contract_refs" event))) q;
        evidence = unmet_sound _ _ _ _ (λ x. lists_iff x (as_list (get "evidence_refs" event))) v;
      }

  pub pre_complete :
      (contract event p a : Fields) (path : String) (pre : Fields)
      → MeetsPre contract event p a pre
      → pre_issues contract event p a path pre ≡ ok []
  unfolding pre_issues action_has_effect
  pre_complete contract event p a path pre m =
      rw
        (
          capability_complete contract p path (required_text contract pre "require_capability")
              m.capability,
          guarded_complete _ _ _ (λ x y. (same_tenant_iff p a).1 (m.tenant x y)),
          unmet_complete _ _ _ _ (λ k. effect_iff k (as_list (get "effects" a))) m.effect,
          unmet_complete _ _ _ _ (λ x. lists_iff x (as_list (get "roles" p))) m.role,
          unmet_complete _ _ _ _ (λ x. lists_iff x (as_list (get "contract_refs" event))) m.policy,
          unmet_complete _ _ _ _ (λ x. lists_iff x (as_list (get "evidence_refs" event)))
              m.evidence,
        )
        refl
