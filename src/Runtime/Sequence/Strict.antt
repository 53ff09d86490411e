-- ===== src/Runtime/Sequence/Strict.antt =====
-- What the strict order check means.
use pcs_core.Prelude.{
  ℕ, zero, suc, List, [], ◌∷◌, ◌++◌, ◌≡◌, refl, sym, subst, ◌↔◌, Option, none, some, Bool, true,
  false, not, ◌&&◌, when, any, All, arith,
}
use pcs_core.Prelude.Int.{ℤ, pos, negsuc, ◌≤ℤ◌, ltb_ℤ, eqb_ℤ, succ_ℤ, eqb_ℤ_iff}
use pcs_core.Json.{Value, obj, Fields, as_list, as_int}
use pcs_core.Json.Dict.{get}
use pcs_core.Runtime.Chain.Meaning.{nil_of_append}
use pcs_core.Runtime.Sequence.{
  SequenceError, invalid_sequence, duplicate_sequence, sequence_gap, order_mismatch,
  against_previous, sequence_errors, validate_event_sequence_order,
}

-- The first number is free, and each later one is the successor of the one before.
abbrev pub Follows : Option ℤ → ℤ → Type 0
Follows none n = Unit
Follows (some p) n = n ≡ succ_ℤ p

-- Every event that is a dictionary has an integer as its sequence, and they are consecutive.
abbrev pub IsConsecutive : Option ℤ → List Value → Type 0
IsConsecutive prev [] = Unit
IsConsecutive prev (obj event ∷ rest) =
    (n : ℤ) × (as_int (get "sequence" event) ≡ some n)
    × Follows prev n
    × IsConsecutive (some n) rest
IsConsecutive prev (_ ∷ rest) = IsConsecutive prev rest

-- The numbers seen are at most the one before; there are none before the first.
abbrev IsBelow : Option ℤ → List ℤ → Type 0
IsBelow none seen = seen ≡ []
IsBelow (some p) seen = All (λ m. m ≤ℤ p) seen

successor_of : (b : Bool) (x : SequenceError) → when (true && not b) x ≡ [] → b ≡ true
successor_of true x h = refl
successor_of false x h = cc

Follows-sound :
    (i : ℕ) (prev : Option ℤ) (n : ℤ) → against_previous true i prev n ≡ [] → Follows prev n
Follows-sound i none n h = tt
Follows-sound i (some p) n h =
    let (_, gap) = nil_of_append (when (ltb_ℤ n p) (order_mismatch i n p)) _ h in
    (eqb_ℤ_iff n (succ_ℤ p)).0 (successor_of (eqb_ℤ n (succ_ℤ p)) (sequence_gap i p n) gap)

not-above : (p : ℤ) → ltb_ℤ (succ_ℤ p) p ≡ false
not-above (pos n) = ground arith
not-above (negsuc zero) = ground arith
not-above (negsuc (suc n)) = ground arith

fresh : (m p : ℤ) → m ≤ℤ p → eqb_ℤ m (succ_ℤ p) ≡ false
fresh (pos m) (pos n) h = ground arith
fresh (pos m) (negsuc n) h = absurd (omega arith)
fresh (negsuc m) (pos n) h = ground arith
fresh (negsuc m) (negsuc zero) h = ground arith
fresh (negsuc m) (negsuc (suc n)) h = ground arith

below_next : (m p : ℤ) → m ≤ℤ p → m ≤ℤ succ_ℤ p
below_next m (pos n) h = omega arith
below_next m (negsuc zero) h = omega arith
below_next m (negsuc (suc n)) h = omega arith

same_below : (p : ℤ) → p ≤ℤ p
same_below p = omega arith

All-fresh :
    (seen : List ℤ) (p : ℤ) → All (λ m. m ≤ℤ p) seen → any (λ m. eqb_ℤ m (succ_ℤ p)) seen ≡ false
All-fresh [] p h = refl
All-fresh (m ∷ seen) p h = rw (fresh m p h.0) (All-fresh seen p h.1)

All-below : (seen : List ℤ) (p : ℤ) → All (λ m. m ≤ℤ p) seen → All (λ m. m ≤ℤ succ_ℤ p) seen
All-below [] p h = tt
All-below (m ∷ seen) p h = (below_next m p h.0, All-below seen p h.1)

again-false :
    (seen : List ℤ) (p n : ℤ)
    → n ≡ succ_ℤ p
    → All (λ m. m ≤ℤ p) seen
    → any (λ m. eqb_ℤ m n) seen ≡ false
again-false seen p n e h = rw e (All-fresh seen p h)

seen_next :
    (prev : Option ℤ) (n : ℤ) (seen : List ℤ)
    → IsBelow prev seen
    → Follows prev n
    → All (λ m. m ≤ℤ n) (n ∷ seen)
seen_next none n seen h f = rw h (same_below n, tt)
seen_next (some p) n seen h f =
    (same_below n, subst (λ j. All (λ m. m ≤ℤ j) seen) (sym f) (All-below seen p h))

fresh-any :
    (prev : Option ℤ) (n : ℤ) (seen : List ℤ)
    → IsBelow prev seen
    → Follows prev n
    → any (λ m. eqb_ℤ m n) seen ≡ false
fresh-any none n seen h f = rw h refl
fresh-any (some p) n seen h f = again-false seen p n f h

Follows-complete :
    (i : ℕ) (prev : Option ℤ) (n : ℤ) → Follows prev n → against_previous true i prev n ≡ []
Follows-complete i none n f = refl
Follows-complete i (some p) n f = rw (f, not-above p, (eqb_ℤ_iff (succ_ℤ p) (succ_ℤ p)).1 refl) refl

strict_sound :
    (seen : List ℤ) (prev : Option ℤ) (i : ℕ) (vs : List Value)
    → sequence_errors true seen prev i vs ≡ []
    → IsConsecutive prev vs
unfolding sequence_errors
strict_sound seen prev i [] h = tt
strict_sound seen prev i (obj event ∷ rest) h =
    at (as_int (get "sequence" event)) refl h (λ n. strict_sound (n ∷ seen) (some n) (suc i) rest)
  where
    at :
        (o : Option ℤ)
        → as_int (get "sequence" event) ≡ o
        → elim o [
          | none ↦ invalid_sequence i ∷ sequence_errors true seen prev (suc i) rest
          | some n ↦
              when (any (λ m. eqb_ℤ m n) seen) (duplicate_sequence i n)
              ++ against_previous true i prev n
              ++ sequence_errors true (n ∷ seen) (some n) (suc i) rest
        ]
          ≡ []
        → ((n : ℤ)
            → sequence_errors true (n ∷ seen) (some n) (suc i) rest ≡ []
            → IsConsecutive (some n) rest)
        → IsConsecutive prev (obj event ∷ rest)
    at none e k again = cc
    at (some n) e k again =
        let (both, later) =
          nil_of_append
            (when (any (λ m. eqb_ℤ m n) seen) (duplicate_sequence i n)
              ++ against_previous true i prev n)
            _ k in
        let (_, here) =
          nil_of_append (when (any (λ m. eqb_ℤ m n) seen) (duplicate_sequence i n)) _ both in
        (n, e, Follows-sound i prev n here, again n later)
strict_sound seen prev i (_ ∷ rest) h = strict_sound seen prev (suc i) rest h

strict_complete :
    (seen : List ℤ) (prev : Option ℤ) (i : ℕ) (vs : List Value)
    → IsBelow prev seen
    → IsConsecutive prev vs
    → sequence_errors true seen prev i vs ≡ []
unfolding sequence_errors
strict_complete seen prev i [] b h = refl
strict_complete seen prev i (obj event ∷ rest) b (n, e, f, later) =
    at (as_int (get "sequence" event)) e (
      rw (fresh-any prev n seen b f, Follows-complete i prev n f)
        (strict_complete (n ∷ seen) (some n) (suc i) rest (seen_next prev n seen b f) later))
  where
    at :
        (o : Option ℤ)
        → o ≡ some n
        → when (any (λ m. eqb_ℤ m n) seen) (duplicate_sequence i n)
            ++ against_previous true i prev n
            ++ sequence_errors true (n ∷ seen) (some n) (suc i) rest
          ≡ []
        → elim o [
          | none ↦ invalid_sequence i ∷ sequence_errors true seen prev (suc i) rest
          | some n ↦
              when (any (λ m. eqb_ℤ m n) seen) (duplicate_sequence i n)
              ++ against_previous true i prev n
              ++ sequence_errors true (n ∷ seen) (some n) (suc i) rest
        ]
          ≡ []
    at o q k = rw q k
strict_complete seen prev i (_ ∷ rest) b h = strict_complete seen prev (suc i) rest b h

-- In strict mode the order check reports nothing for a list of events exactly when every event that
-- is a dictionary has an integer as its sequence, and these integers are consecutive, from any first
-- one on.
pub strict_order_iff :
    (trace : Fields) (events : List Value)
    → as_list (get "events" trace) ≡ some events
    → (validate_event_sequence_order true trace ≡ []) ↔ IsConsecutive none events
unfolding validate_event_sequence_order
strict_order_iff trace events e =
    rw e (strict_sound [] none 0 events, strict_complete [] none 0 events refl)
