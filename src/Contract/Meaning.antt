-- ===== src/Contract/Meaning.antt =====
-- What it means that an event satisfies a contract.
use pcs_core.Prelude.{String, List, [], ◌∷◌, ◌≡◌, ◌≢◌, ◌⊎◌, Option, none, some, true, elem, ok}
use pcs_core.Json.{Value, bool, obj, Fields, as_dict, as_list, truthy}
use pcs_core.Json.Dict.{get}
use pcs_core.Json.Text.{text_or, str_of}
use pcs_core.Host.{Host}
use pcs_core.Runtime.Principal.{expand_principal_capabilities}
use pcs_core.Runtime.Tenant.{decision_of}
use pcs_core.Runtime.Tenant.Ownership.{IsWithinTenant}
use pcs_core.Runtime.Event.{capability_id_of}
use pcs_core.Contract.Event.{in_scope, required_text}

abbrev pub Any {ℓ} : {A : Type ℓ} → (A → Type 0) → List A → Type 0
Any P [] = ⊥
Any P (x ∷ xs) = P x ⊎ Any P xs

-- A requirement that is stated holds.
abbrev pub Requires : Option String → (String → Type 0) → Type 0
Requires none P = Unit
Requires (some r) P = P r

module _ ⦃py : Host⦄ where
  -- The list has an entry that str() prints as r.
  abbrev pub Mentions : String → Option (List Value) → Type 0
  Mentions r none = ⊥
  Mentions r (some vs) = Any (λ v. str_of v ≡ r) vs

  abbrev pub IsEffect : String → Value → Type 0
  IsEffect kind (obj effect) = text_or "" (get "effect_kind" effect) ≡ kind
  IsEffect kind _ = ⊥

  abbrev pub HasEffect : String → Option (List Value) → Type 0
  HasEffect kind none = ⊥
  HasEffect kind (some effects) = Any (IsEffect kind) effects

  -- The roles and the given capabilities of the principal expand to a list with the id.
  pub record Holds (principal : Fields) (id : String) : Type 0 where
    pub held : List String
    pub expands : expand_principal_capabilities principal ≡ ok held
    pub has : elem id held ≡ true

  pub record MeetsPre (contract event principal action pre : Fields) : Type 0 where
    pub tenant :
        truthy (get "require_tenant_match" pre) ≡ true
        → in_scope contract "require_tenant_match" ≡ true
        → IsWithinTenant principal action
    pub capability : Requires (required_text contract pre "require_capability") (Holds principal)
    pub effect :
        Requires
          (required_text contract pre "require_effect")
          (λ k. HasEffect k (as_list (get "effects" action)))
    pub role :
        Requires
          (required_text contract pre "require_role")
          (λ r. Mentions r (as_list (get "roles" principal)))
    pub policy :
        Requires
          (required_text contract pre "require_policy_ref")
          (λ r. Mentions r (as_list (get "contract_refs" event)))
    pub evidence :
        Requires
          (required_text contract pre "require_evidence_ref")
          (λ r. Mentions r (as_list (get "evidence_refs" event)))

  pub record IsSafe (principal action : Fields) : Type 0 where
    pub named : capability_id_of action ≢ ""
    pub holds : Holds principal (capability_id_of action)
    pub within : IsWithinTenant principal action

  pub record MeetsPost (contract event principal action post : Fields) : Type 0 where
    pub decision :
        Requires (required_text contract post "require_decision") (λ d. decision_of event ≡ d)
    pub safe :
        get "require_event_safe" post ≡ bool true
        → in_scope contract "require_event_safe" ≡ true
        → text_or "allow" (get "decision" event) ≡ "allow"
        → IsSafe principal action

  abbrev pub Block : (Fields → Type 0) → Option Fields → Type 0
  Block P none = Unit
  Block P (some block) = P block

  abbrev pub Between : Fields → Fields → Option Fields → Option Fields → Type 0
  Between contract event (some principal) (some action) =
      Block (MeetsPre contract event principal action) (as_dict (get "pre" contract))
      × Block (MeetsPost contract event principal action) (as_dict (get "post" contract))
  Between contract event _ _ = ⊥

  -- The event has a principal and an action, and these meet the blocks of the contract.
  abbrev pub Satisfies : Fields → Fields → Type 0
  Satisfies event contract =
      Between contract event (as_dict (get "principal" event)) (as_dict (get "action" event))
