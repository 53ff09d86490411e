-- ===== src/Runtime/ToolUse/Kept.antt =====
-- validate_denied_events_preserved of pf_core_runtime.py: no denied tool call is lost in a trace.
use pcs_core.Prelude.{
  String, List, [], ◌∷◌, Option, none, some, not, ◌&&◌, ◌==◌, elem, Result, ok, err, ◌>>◌, raise_if,
}
use pcs_core.Json.{Value, obj, Fields, as_list}
use pcs_core.Json.Dict.{get}
use pcs_core.Json.Text.{str_of, text_or}
use pcs_core.Host.{Host}
use pcs_core.Runtime.{RuntimeError, dropped_denied_event}
use pcs_core.Runtime.ToolUse.{authorization_decision}
use pcs_core.Runtime.ToolUse.Compiler.{is_denied}

module _ ⦃py : Host⦄ where
  -- compiled_ids
  unfoldable pub event_ids : List Value → List String
  event_ids [] = []
  event_ids (obj event ∷ rest) = str_of (get "event_id" event) ∷ event_ids rest
  event_ids (_ ∷ rest) = event_ids rest

  unfoldable pub check_calls_kept : List String → List Value → Result RuntimeError (Unit {0})
  check_calls_kept ids [] = ok tt
  check_calls_kept ids (obj call ∷ rest) =
      let id = text_or "" (get "event_id" call) in
      let denied =
        is_denied (authorization_decision (text_or "" (get "authorization_status" call))) in
      raise_if (denied && not (id == "") && not (elem id ids)) (dropped_denied_event id "events")
      >> check_calls_kept ids rest
  check_calls_kept ids (_ ∷ rest) = check_calls_kept ids rest

  abbrev calls_kept_in : Option (List Value) → Option (List Value) → Result RuntimeError (Unit {0})
  calls_kept_in none events = ok tt
  calls_kept_in (some calls) none = err (dropped_denied_event "<missing-events>" "events")
  calls_kept_in (some calls) (some events) = check_calls_kept (event_ids events) calls

  unfoldable pub validate_denied_events_preserved : Fields → Fields → Result RuntimeError (Unit {0})
  unfolding event_ids check_calls_kept
  validate_denied_events_preserved source trace =
      calls_kept_in (as_list (get "tool_calls" source)) (as_list (get "events" trace))
