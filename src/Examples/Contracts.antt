-- ===== src/Examples/Contracts.antt =====
-- Witnesses of the theorem on the evaluation of contracts.
use pcs_core.Prelude.{◌≡◌, ◌↔◌, [], ok, true}
use pcs_core.Json.{str, bool, obj, Fields, end, field}
use pcs_core.Contract.Event.{validate_event_against_contract}
use pcs_core.Contract.Meaning.{Satisfies}
use pcs_core.Contract.Satisfaction.{validate_event-Satisfies}
use pcs_core.Examples.{demo, observation}

abbrev reading_contract : Fields
reading_contract = field "pre" (obj (field "require_effect" (str "file.read") end)) (
    field "post"
      (obj (field "require_decision" (str "allow") (field "require_event_safe" (bool true) end)))
      end)

contract_example :
    (validate_event_against_contract ⦃py = demo⦄
        (observation "e-1" "allow")
        reading_contract
        "events[0]"
      ≡ ok [])
    ↔ Satisfies ⦃py = demo⦄ (observation "e-1" "allow") reading_contract
contract_example =
    validate_event-Satisfies ⦃py = demo⦄ (observation "e-1" "allow") reading_contract "events[0]"
