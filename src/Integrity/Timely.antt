-- ===== src/Integrity/Timely.antt =====
-- What the policy on timestamps guarantees.
use pcs_core.Prelude.{
  ℕ, ◌+◌, ◌≤◌, [], ◌∷◌, ◌≡◌, refl, Option, none, some, Bool, true, false, if◌then◌else◌, ltb, leb,
  when, arith,
}
use pcs_core.Runtime.Chain.Meaning.{nil_of_append, when-eq-nil}
use pcs_core.Integrity.{
  TrustedKey, Problem, TimestampPolicy, evaluate, now_of, validity_problems, age_problems,
  is_valid_at, is_revoked_at, is_after, is_at_or_after,
}

-- The key was valid at the time: begun, not past its end, and not revoked.
abbrev pub IsNotAfter : ℕ → Option ℕ → Type 0
IsNotAfter time none = Unit
IsNotAfter time (some limit) = time ≤ limit

abbrev pub IsBefore : ℕ → Option ℕ → Type 0
IsBefore time none = Unit
IsBefore time (some limit) = 1 + time ≤ limit

abbrev pub IsFresh : ℕ → ℕ → Option ℕ → Type 0
IsFresh time now none = Unit
IsFresh time now (some age) = now ≤ time + age

pub record IsTimely (policy : TimestampPolicy) (clock time : ℕ) (key : TrustedKey) : Type 0 where
  pub begun : key.valid_from ≤ time
  pub not_ended : IsNotAfter time key.valid_until
  pub not_revoked : IsBefore time key.revoked_at
  pub not_ahead : time ≤ now_of policy clock + policy.future_skew
  pub fresh : IsFresh time (now_of policy clock) policy.max_age

three_tests :
    (a b c : Bool)
    → (if a then false else if b then false else if c then false else true) ≡ true
    → (a ≡ false) × (b ≡ false) × (c ≡ false)
three_tests a b c h = ground arith

ltb_not : (a b : ℕ) → ltb a b ≡ false → b ≤ a
ltb_not a b h = ground arith

leb_not : (a b : ℕ) → leb a b ≡ false → 1 + b ≤ a
leb_not a b h = ground arith

no_validity :
    (b c : Bool) (x y : Problem) → (if b then [] else if c then x ∷ [] else y ∷ []) ≡ [] → b ≡ true
no_validity true c x y h = refl
no_validity false true x y h = cc
no_validity false false x y h = cc

not_after : (o : Option ℕ) (time : ℕ) → is_after o time ≡ false → IsNotAfter time o
not_after none time h = tt
not_after (some limit) time h = ltb_not limit time h

before : (o : Option ℕ) (time : ℕ) → is_at_or_after o time ≡ false → IsBefore time o
before none time h = tt
before (some limit) time h = leb_not limit time h

IsFresh-of : (o : Option ℕ) (time now : ℕ) → age_problems o time now ≡ [] → IsFresh time now o
IsFresh-of none time now h = tt
IsFresh-of (some age) time now h = ltb_not (time + age) now (when-eq-nil _ _ h)

pub evaluate-IsTimely :
    (policy : TimestampPolicy) (clock time : ℕ) (key : TrustedKey)
    → evaluate policy clock time key ≡ []
    → IsTimely policy clock time key
unfolding evaluate
evaluate-IsTimely policy clock time key h =
    let (valid, others) = nil_of_append (validity_problems key time) _ h in
    let (ahead, age) =
      nil_of_append (when (ltb (now_of policy clock + policy.future_skew) time) _) _ others in
    let (a, b, c) =
      three_tests (ltb time key.valid_from) (is_after key.valid_until time) (is_revoked_at key time)
        (no_validity (is_valid_at key time) (is_revoked_at key time) _ _ valid) in
    record {
      begun = ltb_not time key.valid_from a;
      not_ended = not_after key.valid_until time b;
      not_revoked = before key.revoked_at time c;
      not_ahead = ltb_not (now_of policy clock + policy.future_skew) time (when-eq-nil _ _ ahead);
      fresh = IsFresh-of policy.max_age time (now_of policy clock) age;
    }
