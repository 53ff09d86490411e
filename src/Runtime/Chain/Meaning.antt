-- ===== src/Runtime/Chain/Meaning.antt =====
-- What a hash chain without errors is.
use pcs_core.Prelude.{
  ℕ, suc, String, List, [], ◌∷◌, ◌++◌, ◌≡◌, refl, ◌↔◌, Bool, true, false, not, ◌==◌, when, arith,
  eq_iff, eq_refl, Result, ok, err, ap, sym, subst, ◌∙◌,
}
use pcs_core.Json.{Value, obj, Fields}
use pcs_core.Host.{Host}
use pcs_core.Runtime.{RuntimeError}
use pcs_core.Runtime.Event.{compute_event_hash}
use pcs_core.Runtime.Chain.{
  ChainError, invalid_previous, previous_mismatch, invalid_event_hash, event_hash_mismatch,
  previous_field, hash_field, chain_errors,
}

pub nil_of_append {ℓ} : {A : Type ℓ} (xs ys : List A) → xs ++ ys ≡ [] → (xs ≡ []) × (ys ≡ [])
nil_of_append [] ys h = (refl, h)
nil_of_append (x ∷ xs) ys h = cc

pub when-eq-nil {ℓ} : {A : Type ℓ} (b : Bool) (x : A) → when b x ≡ [] → b ≡ false
when-eq-nil true x h = cc
when-eq-nil false x h = refl

module _ ⦃py : Host⦄ where
  -- Every entry is an event that states the hash of the one before it, and its own hash as computed.
  pub data IsChained : String → List Value → Type 0 where
    last : (previous : String) → IsChained previous []
    next :
        {previous : String} {event : Fields} {rest : List Value}
        → previous_field event ≡ ok previous
        → hash_field event ≡ ok (compute_event_hash event)
        → IsChained (compute_event_hash event) rest
        → IsChained previous (obj event ∷ rest)

  event_errors :
      String
      → ℕ
      → Fields
      → List Value
      → Result RuntimeError String
      → Result RuntimeError String
      → List ChainError
  event_errors previous i event rest stated actual =
      let skipped = chain_errors previous (suc i) rest in
      elim stated [
        | err e ↦ invalid_previous i ∷ skipped
        | ok p ↦ when (not (p == previous)) (previous_mismatch i previous p) ++ elim actual [
          | err e ↦ invalid_event_hash i ∷ chain_errors previous (suc i) rest
          | ok a ↦
              when (not (a == compute_event_hash event))
                (event_hash_mismatch i (compute_event_hash event) a)
              ++ chain_errors a (suc i) rest
        ]
      ]

  differs_not : (a b : String) → not (a == b) ≡ false → a ≡ b
  differs_not a b h = ground (arith, eq_iff a b)

  record Good (previous : String) (i : ℕ) (event : Fields) (rest : List Value)
      (stated actual : Result RuntimeError String) : Type 0 where
    states : stated ≡ ok previous
    hashes : actual ≡ ok (compute_event_hash event)
    rest_good : chain_errors (compute_event_hash event) (suc i) rest ≡ []

  event-Good :
      (previous : String) (i : ℕ) (event : Fields) (rest : List Value)
      (stated actual : Result RuntimeError String)
      → event_errors previous i event rest stated actual ≡ []
      → Good previous i event rest stated actual
  unfolding event_errors
  event-Good previous i event rest (err e) actual h = cc
  event-Good previous i event rest (ok p) (err e) h = ground arith
  event-Good previous i event rest (ok p) (ok a) h =
      let (p_ok, k) = nil_of_append _ _ h in
      let (a_ok, r) = nil_of_append _ _ k in
      let same : a ≡ compute_event_hash event = differs_not a _ (when-eq-nil _ _ a_ok) in
      record {
        states = ap ok (differs_not p previous (when-eq-nil _ _ p_ok));
        hashes = ap ok same;
        rest_good = ap (λ x. chain_errors x (suc i) rest) (sym same) ∙ r;
      }

  chain_sound :
      (previous : String) (i : ℕ) (events : List Value)
      → chain_errors previous i events ≡ []
      → IsChained previous events
  unfolding chain_errors
  chain_sound previous i [] h = last previous
  chain_sound previous i (obj event ∷ rest) h =
      let g : Good previous i event rest (previous_field event) (hash_field event) =
        event-Good previous i event rest (previous_field event) (hash_field event)
          (unfold event_errors in h) in
      next g.states g.hashes (chain_sound (compute_event_hash event) (suc i) rest g.rest_good)
  chain_sound previous i (_ ∷ rest) h = cc

  event_complete :
      (previous : String) (i : ℕ) (event : Fields) (rest : List Value)
      {stated actual : Result RuntimeError String}
      → stated ≡ ok previous
      → actual ≡ ok (compute_event_hash event)
      → chain_errors (compute_event_hash event) (suc i) rest ≡ []
      → event_errors previous i event rest stated actual ≡ []
  event_complete previous i event rest {stated} {actual} p h r =
      let own = compute_event_hash event in
      let both : event_errors previous i event rest (ok previous) (ok own) ≡ [] =
        unfold event_errors in rw (eq_refl previous, eq_refl own) r in
      subst (λ s. event_errors previous i event rest s actual ≡ []) (sym p)
        (subst (λ a. event_errors previous i event rest (ok previous) a ≡ []) (sym h) both)

  chain_complete :
      (previous : String) (i : ℕ) (events : List Value)
      → IsChained previous events
      → chain_errors previous i events ≡ []
  unfolding chain_errors event_errors
  chain_complete previous i [] h = refl
  chain_complete previous i (v ∷ rest) (next {event} p h r) =
      event_complete previous i event rest p h
        (chain_complete (compute_event_hash event) (suc i) rest r)

  -- The loop over the events reports nothing exactly when every entry is a dictionary that states the
  -- hash of the one before it, and its own hash as computed.
  pub chain_errors_iff :
      (previous : String) (i : ℕ) (events : List Value)
      → (chain_errors previous i events ≡ []) ↔ IsChained previous events
  chain_errors_iff previous i events =
      (chain_sound previous i events, chain_complete previous i events)
