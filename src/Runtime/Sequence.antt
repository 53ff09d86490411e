-- ===== src/Runtime/Sequence.antt =====
-- validate_event_sequence_order of pf_core_runtime.py.
pub mod Strict
use pcs_core.Prelude.{ℕ, suc, List, [], ◌∷◌, ◌++◌, Option, none, some, Bool, not, ◌&&◌, when, any}
use pcs_core.Prelude.Int.{ℤ, ltb_ℤ, eqb_ℤ, succ_ℤ}
use pcs_core.Json.{Value, obj, Fields, as_list, as_int}
use pcs_core.Json.Dict.{get}

pub data SequenceError : Type 0 where
  invalid_sequence : ℕ → SequenceError
  duplicate_sequence : ℕ → ℤ → SequenceError
  order_mismatch : ℕ → ℤ → ℤ → SequenceError
  sequence_gap : ℕ → ℤ → ℤ → SequenceError

-- What one event adds, after the sequence of the event before.
abbrev pub against_previous : Bool → ℕ → Option ℤ → ℤ → List SequenceError
against_previous strict i none n = []
against_previous strict i (some prev) n =
    when (ltb_ℤ n prev) (order_mismatch i n prev)
    ++ when (strict && not (eqb_ℤ n (succ_ℤ prev))) (sequence_gap i prev n)

-- The state of the loop: the sequences seen and the one before.
unfoldable pub sequence_errors : Bool → List ℤ → Option ℤ → ℕ → List Value → List SequenceError
sequence_errors strict seen prev i [] = []
sequence_errors strict seen prev i (obj event ∷ rest) =
    let skipped = sequence_errors strict seen prev (suc i) rest in
    elim (as_int (get "sequence" event)) [
      | none ↦ invalid_sequence i ∷ skipped
      | some n ↦
          when (any (λ m. eqb_ℤ m n) seen) (duplicate_sequence i n)
          ++ against_previous strict i prev n
          ++ sequence_errors strict (n ∷ seen) (some n) (suc i) rest
    ]
sequence_errors strict seen prev i (_ ∷ rest) = sequence_errors strict seen prev (suc i) rest

abbrev errors_of : Bool → Option (List Value) → List SequenceError
errors_of strict none = []
errors_of strict (some events) = sequence_errors strict [] none 0 events

unfoldable pub validate_event_sequence_order : Bool → Fields → List SequenceError
unfolding sequence_errors
validate_event_sequence_order strict trace = errors_of strict (as_list (get "events" trace))
