-- ===== src/Contract/Satisfaction.antt =====
-- The evaluation of a contract decides whether an event satisfies it.
use pcs_core.Prelude.{
  String, List, [], ◌∷◌, ◌≡◌, ◌≢◌, refl, ap, ◌∙◌, ◌↔◌, inl, inr, Option, none, some, Bool, true,
  false, not, ◌&&◌, ◌==◌, if◌then◌else◌, when, Result, ok, bind_ok, arith, eq_iff, Bool-cases,
}
use pcs_core.Json.{Value, null, bool, int, float, str, arr, obj, Fields, as_dict}
use pcs_core.Json.Dict.{get}
use pcs_core.Json.Text.{text_or}
use pcs_core.Host.{Host}
use pcs_core.Runtime.{RuntimeError}
use pcs_core.Runtime.Tenant.{same_tenant, decision_of}
use pcs_core.Runtime.Tenant.Ownership.{same_tenant_iff}
use pcs_core.Runtime.Chain.Meaning.{nil_of_append}
use pcs_core.Runtime.Event.{capability_id_of}
use pcs_core.Contract.Event.{
  ContractIssue, in_scope, required_text, principal_has_capability, unmet, pre_issues,
  safety_issues, post_issues, block_issues, issues_between, is_true,
  validate_event_against_contract,
}
use pcs_core.Contract.Meaning.{IsSafe, MeetsPost, Block, Between, Satisfies}
use pcs_core.Contract.Pre.{
  ok_list, unmet_sound, unmet_complete, has_capability_sound, has_capability_complete, pre_sound,
  pre_complete,
}

cons_nil {ℓ} : {A : Type ℓ} {x : A} {xs : List A} → x ∷ xs ≡ [] → ⊥
cons_nil h = cc

all_three : (a b c : Bool) → a ≡ true → b ≡ true → c ≡ true → (a && b && c) ≡ true
all_three a b c p q r = ground arith

true_of : (v : Value) → is_true v ≡ true → v ≡ bool true
true_of (bool true) h = refl
true_of (bool false) h = cc
true_of null h = cc
true_of (int n) h = cc
true_of (float r) h = cc
true_of (str s) h = cc
true_of (arr vs) h = cc
true_of (obj fs) h = cc

three_of : (a b c : Bool) → (a && b && c) ≡ true → (a ≡ true) × (b ≡ true) × (c ≡ true)
three_of a b c h = ground arith

pub else_of {ℓ} :
    {A : Type ℓ} (b : Bool) (x y : A) {z : A} → b ≡ false → (if b then x else y) ≡ z → y ≡ z
else_of true x y e h = cc
else_of false x y e h = h

pub then_of {ℓ} :
    {A : Type ℓ} (b : Bool) (x y : A) {z : A} → b ≡ true → (if b then x else y) ≡ z → x ≡ z
then_of true x y e h = h
then_of false x y e h = cc

eq_false : (s t : String) → s ≢ t → (s == t) ≡ false
eq_false s t h = ground (arith, eq_iff s t)

eq_true : (s t : String) → (s == t) ≡ false → s ≢ t
eq_true s t e q = ground (arith, eq_iff s t)

module _ ⦃py : Host⦄ where
  -- The two issues of an unsafe event.
  no_issue :
      (held same : Bool) (x y : ContractIssue)
      → (if not held then x ∷ [] else when (not same) y) ≡ []
      → (held ≡ true) × (same ≡ true)
  no_issue true true x y h = (refl, refl)
  no_issue true false x y h = absurd (cons_nil h)
  no_issue false same x y h = absurd (cons_nil h)

  safety_sound :
      (contract p a : Fields) (path : String) (issues : List ContractIssue)
      → safety_issues contract p a path ≡ ok issues
      → issues ≡ []
      → IsSafe p a
  safety_sound contract p a path issues h e = elim (Bool-cases (capability_id_of a == "")) [
    | inl blank ↦ absurd (cons_nil (ok_list (then_of (capability_id_of a == "") _ _ blank h) ∙ e))
    | inr named ↦
        let (b, has, made) =
          bind_ok (principal_has_capability p (capability_id_of a)) _
            (else_of (capability_id_of a == "") _ _ named h) in
        let (held, same) = no_issue b (same_tenant p a) _ _ (ok_list made ∙ e) in
        record {
          named = eq_true (capability_id_of a) "" named;
          holds = has_capability_sound p (capability_id_of a) b has held;
          within = (same_tenant_iff p a).0 same;
        }
  ]

  safety_complete :
      (contract p a : Fields) (path : String) → IsSafe p a → safety_issues contract p a path ≡ ok []
  safety_complete contract p a path s =
      let named : (capability_id_of a == "") ≡ false = eq_false (capability_id_of a) "" s.named in
      rw
        (
          named,
          has_capability_complete p (capability_id_of a) s.holds,
          (same_tenant_iff p a).1 s.within,
        )
        refl

  post_sound :
      (contract event p a : Fields) (path : String) (post : Fields)
      → post_issues contract event p a path post ≡ ok []
      → MeetsPost contract event p a post
  unfolding post_issues
  post_sound contract event p a path post h =
      let (issues, checked, made) =
        bind_ok
          (if is_true (get "require_event_safe" post)
              && in_scope contract "require_event_safe"
              && text_or "allow" (get "decision" event) == "allow"
            then safety_issues contract p a path
            else ok [])
          _ h in
      let (d, e) =
        nil_of_append (unmet (required_text contract post "require_decision") _ _) _
          (ok_list made) in
      record {
        decision = unmet_sound _ _ _ _ (λ x. eq_iff (decision_of event) x) d;
        safe = λ wanted scoped allows.
            safety_sound contract p a path issues
              (then_of _ _ _
                (all_three (is_true (get "require_event_safe" post)) _ _ (ap is_true wanted) scoped
                  ((eq_iff (text_or "allow" (get "decision" event)) "allow").1 allows))
                checked)
              e;
      }

  checked_when :
      (b : Bool) (m : Result RuntimeError (List ContractIssue))
      → (b ≡ true → m ≡ ok [])
      → (if b then m else ok []) ≡ ok []
  checked_when true m h = h refl
  checked_when false m h = refl

  post_complete :
      (contract event p a : Fields) (path : String) (post : Fields)
      → MeetsPost contract event p a post
      → post_issues contract event p a path post ≡ ok []
  unfolding post_issues
  post_complete contract event p a path post m =
      rw
        (
          checked_when
              (is_true (get "require_event_safe" post)
                && in_scope contract "require_event_safe"
                && text_or "allow" (get "decision" event) == "allow")
              (safety_issues contract p a path)
              (λ all.
                let (wanted, scoped, allows) = three_of _ _ _ all in
                safety_complete contract p a path (
                  m.safe (true_of (get "require_event_safe" post) wanted) scoped
                    ((eq_iff (text_or "allow" (get "decision" event)) "allow").0 allows))),
          unmet_complete _ _ _ _ (λ x. eq_iff (decision_of event) x) m.decision,
        )
        refl

  Block-sound :
      (check : Fields → Result RuntimeError (List ContractIssue)) (P : Fields → Type 0)
      → ((b : Fields) → check b ≡ ok [] → P b)
      → (o : Option Fields) (issues : List ContractIssue) → block_issues check o ≡ ok issues
      → issues ≡ []
      → Block P o
  Block-sound check P each none issues h e = tt
  Block-sound check P each (some b) issues h e = each b (h ∙ ap ok e)

  Block-complete :
      (check : Fields → Result RuntimeError (List ContractIssue)) (P : Fields → Type 0)
      → ((b : Fields) → P b → check b ≡ ok [])
      → (o : Option Fields) → Block P o
      → block_issues check o ≡ ok []
  Block-complete check P each none h = refl
  Block-complete check P each (some b) h = each b h

  Between-sound :
      (contract event : Fields) (path : String) (p a : Option Fields)
      → issues_between contract event path p a ≡ ok []
      → Between contract event p a
  Between-sound contract event path (some p) (some a) h =
      let (pre, first, h₁) =
        bind_ok (block_issues (pre_issues contract event p a path) (as_dict (get "pre" contract))) _
          h in
      let (post, second, made) =
        bind_ok (block_issues (post_issues contract event p a path) (as_dict (get "post" contract)))
          _ h₁ in
      let (e, f) = nil_of_append pre post (ok_list made) in
      (
        Block-sound _ _ (pre_sound contract event p a path) (as_dict (get "pre" contract)) pre first
            e,
        Block-sound _ _ (post_sound contract event p a path) (as_dict (get "post" contract)) post
            second f,
      )
  Between-sound contract event path (some p) none h = absurd (cons_nil (ok_list h))
  Between-sound contract event path none a h = absurd (cons_nil (ok_list h))

  Between-complete :
      (contract event : Fields) (path : String) (p a : Option Fields)
      → Between contract event p a
      → issues_between contract event path p a ≡ ok []
  Between-complete contract event path (some p) (some a) m =
      rw
        (
          Block-complete _ _ (pre_complete contract event p a path) (as_dict (get "pre" contract))
              m.0,
          Block-complete _ _ (post_complete contract event p a path) (as_dict (get "post" contract))
              m.1,
        )
        refl
  Between-complete contract event path (some p) none m = elim m [ ]
  Between-complete contract event path none a m = elim m [ ]

  -- The evaluation of a contract on an event ends without an exception and without an issue exactly
  -- when the event satisfies the contract: it has a principal and an action, and each requirement of
  -- the two blocks that is stated and in scope is met.
  pub validate_event-Satisfies :
      (event contract : Fields) (path : String)
      → (validate_event_against_contract event contract path ≡ ok []) ↔ Satisfies event contract
  unfolding validate_event_against_contract
  validate_event-Satisfies event contract path = (
    Between-sound contract event path (as_dict (get "principal" event))
        (as_dict (get "action" event)),
    Between-complete contract event path (as_dict (get "principal" event))
        (as_dict (get "action" event)),
  )
