-- ===== src/Examples/Orders.antt =====
-- Witness of the theorem on the order of events.
use pcs_core.Prelude.{[], ◌∷◌, ◌≡◌, ◌↔◌, refl, none, some, true}
use pcs_core.Prelude.Int.{pos}
use pcs_core.Json.{Value, int, arr, obj, nil, cons, Fields, end, field, as_list}
use pcs_core.Json.Dict.{get}
use pcs_core.Runtime.Sequence.{validate_event_sequence_order}
use pcs_core.Runtime.Sequence.Strict.{IsConsecutive, strict_order_iff}

abbrev fourth : Value
fourth = obj (field "sequence" (int (pos 4)) end)

abbrev fifth : Value
fifth = obj (field "sequence" (int (pos 5)) end)

abbrev ordered_trace : Fields
ordered_trace = field "events" (arr (cons fourth (cons fifth nil))) end

ordered_events : as_list (get "events" ordered_trace) ≡ some (fourth ∷ fifth ∷ [])
unfolding get
ordered_events = refl

strict_example :
    (validate_event_sequence_order true ordered_trace ≡ [])
    ↔ IsConsecutive none (fourth ∷ fifth ∷ [])
strict_example = strict_order_iff ordered_trace (fourth ∷ fifth ∷ []) ordered_events
