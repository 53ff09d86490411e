-- ===== src/Runtime/Deny.antt =====
-- Denied events and observed effects in pf_core_runtime.py.
use pcs_core.Prelude.{
  ℕ, suc, String, List, [], ◌∷◌, ◌++◌, Option, none, some, Bool, true, false, not, ◌&&◌, ◌==◌,
  if◌then◌else◌, elem, when,
}
use pcs_core.Json.{Value, null, str, obj, Fields, as_dict, as_list, truthy}
use pcs_core.Json.Dict.{get}
use pcs_core.Json.Text.{text_or, str_of}
use pcs_core.Host.{Host}
use pcs_core.Runtime.Tenant.{
  Violation, missing_action, deny_writes, deny_effect, over_trace, decision_of,
}

abbrev pub deny_path_forbidden_effects : List String
deny_path_forbidden_effects =
    "file.write" ∷ "network.egress" ∷ "email.send" ∷ "mcp.invoke" ∷ "handoff.delegate" ∷ []

abbrev pub is_nonempty : Option (List Value) → Bool
is_nonempty none = false
is_nonempty (some []) = false
is_nonempty (some (v ∷ vs)) = true

pub data ObservationError : Type 0 where
  not_an_object : ℕ → ObservationError
  missing_kind : ℕ → ObservationError
  undeclared_kind : ℕ → String → ObservationError
  undeclared_resource : ℕ → String → ObservationError
  resource_not_an_object : ℕ → ObservationError

module _ ⦃py : Host⦄ where
  unfoldable pub effect_kinds_of : List Value → List String
  effect_kinds_of [] = []
  effect_kinds_of (obj item ∷ rest) =
      let kind = text_or "" (get "effect_kind" item) in
      when (not (kind == "")) kind ++ effect_kinds_of rest
  effect_kinds_of (str item ∷ rest) = when (not (item == "")) item ++ effect_kinds_of rest
  effect_kinds_of (_ ∷ rest) = effect_kinds_of rest

  abbrev kinds_or_none : Option (List Value) → List String
  kinds_or_none none = []
  kinds_or_none (some effects) = effect_kinds_of effects

  -- _action_effect_kinds
  unfoldable pub action_effect_kinds : Fields → List String
  unfolding effect_kinds_of
  action_effect_kinds action = kinds_or_none (as_list (get "effects" action))

  abbrev pub forbidden_kinds : ℕ → List String → List Violation
  forbidden_kinds i [] = []
  forbidden_kinds i (kind ∷ kinds) =
      when (elem kind deny_path_forbidden_effects) (deny_effect i kind) ++ forbidden_kinds i kinds

  abbrev pub deny_of : ℕ → Option Fields → List Violation
  deny_of i none = missing_action i ∷ []
  deny_of i (some action) =
      when (is_nonempty (as_list (get "writes" action))) (deny_writes i)
      ++ forbidden_kinds i (action_effect_kinds action)

  unfoldable pub deny_violations : ℕ → Value → List Violation
  deny_violations i (obj event) =
      if decision_of event == "deny" then deny_of i (as_dict (get "action" event)) else []
  deny_violations i _ = []

  unfoldable pub validate_event_safe_deny_closed : Fields → List Violation
  unfolding deny_violations
  validate_event_safe_deny_closed trace = over_trace deny_violations (as_list (get "events" trace))

  unfoldable pub uris_of : List Value → List String
  uris_of [] = []
  uris_of (obj r ∷ rest) =
      let uri = text_or "" (get "uri" r) in when (not (uri == "")) uri ++ uris_of rest
  uris_of (_ ∷ rest) = uris_of rest

  abbrev pub list_or_empty : Option (List Value) → List Value
  list_or_empty none = []
  list_or_empty (some vs) = vs

  -- `obs.get("kind") or obs.get("effect_kind") or ""`
  abbrev kind_of : Fields → String
  kind_of obs =
      if truthy (get "kind" obs)
      then str_of (get "kind" obs)
      else text_or "" (get "effect_kind" obs)

  abbrev resource_errors : ℕ → List String → Value → List ObservationError
  resource_errors i uris (obj r) =
      let uri = text_or "" (get "uri" r) in
      when (not (uri == "") && not (elem uri uris)) (undeclared_resource i uri)
  resource_errors i uris null = []
  resource_errors i uris _ = resource_not_an_object i ∷ []

  unfoldable pub observation_errors :
      List String → List String → ℕ → List Value → List ObservationError
  observation_errors declared uris i [] = []
  observation_errors declared uris i (obj obs ∷ rest) =
      (if kind_of obs == ""
        then missing_kind i ∷ []
        else when (not (elem (kind_of obs) declared)) (undeclared_kind i (kind_of obs))
          ++ resource_errors i uris (get "resource" obs))
      ++ observation_errors declared uris (suc i) rest
  observation_errors declared uris i (_ ∷ rest) =
      not_an_object i ∷ observation_errors declared uris (suc i) rest

  unfoldable pub validate_observed_effects_agree : Fields → List Value → List ObservationError
  unfolding action_effect_kinds uris_of observation_errors
  validate_observed_effects_agree action observations =
      observation_errors (action_effect_kinds action)
        (uris_of (list_or_empty (as_list (get "reads" action)))
          ++ uris_of (list_or_empty (as_list (get "writes" action))))
        0 observations
