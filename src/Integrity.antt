-- ===== src/Integrity.antt =====
-- python/pcs_core/artifact_integrity.py: trusted keys, the policy on timestamps and the encoding of key
-- bytes. A time is the instant in microseconds since year 1, in UTC; bytes are a list of numbers.
pub mod Registry
pub mod Envelope
pub mod Timely
pub mod Authentic
pub mod Semantics
pub mod Excluded
pub mod Sealed
pub mod Roundtrip
use Prim.Native.String.{◌++◌ as str_append, count, len, slice}
use pcs_core.Prelude.{
  ℕ, ◌+◌, ◌-◌, ◌%◌, String, List, [], ◌∷◌, ◌++◌, Option, none, some, Bool, true, false, not, ◌&&◌,
  ◌==◌, if◌then◌else◌, elem, length, when, ltb, leb, eqb, starts_with, Result, ok, err,
}
use pcs_core.Json.{Value}
use pcs_core.Json.Text.{strip}
use pcs_core.Hash.{CanonicalizationError, SigningError}

-- What the module takes from outside: PyNaCl, base64, bytes.fromhex and datetime. A decoder returns
-- none where it raises ValueError or binascii.Error.
pub record Crypto : Type 0 where
  pub urlsafe_b64decode : String → Option (List ℕ)
  pub b64decode : String → Option (List ℕ)
  pub from_hex : String → Option (List ℕ)
  -- base64.urlsafe_b64encode without the padding
  pub b64encode : List ℕ → String
  -- datetime.fromisoformat, a time without a zone read as UTC
  pub from_isoformat : String → Option ℕ
  -- isoformat() in UTC, to the second, with Z
  pub isoformat : ℕ → String
  -- VerifyKey(public).verify of the UTF-8 bytes of a message does not raise
  pub verifies : List ℕ → String → List ℕ → Bool
  -- SigningKey(seed).sign(message).signature
  pub signs : List ℕ → String → List ℕ

pub data IntegrityError : Type 0 where
  unknown_key_id : String → IntegrityError
  verification_failed : IntegrityError
  empty_encoding : IntegrityError
  invalid_encoding : IntegrityError
  wrong_length : ℕ → ℕ → IntegrityError
  wrong_seed_length : ℕ → IntegrityError
  type_and_version_required : IntegrityError
  unexpected_registry_type : Value → IntegrityError
  keys_not_an_array : IntegrityError
  key_not_an_object : ℕ → IntegrityError
  key_id_missing : ℕ → IntegrityError
  duplicate_key_id : String → IntegrityError
  unsupported_algorithm : String → Value → IntegrityError
  purposes_not_an_array : String → IntegrityError

-- What a function of the module raises: an IntegrityError, the exceptions of hash.py, the ValueError
-- of a timestamp, a KeyError, and a TypeError or AttributeError.
pub data Raised : Type 0 where
  integrity : IntegrityError → Raised
  canonicalization : CanonicalizationError → Raised
  signing : SigningError → Raised
  bad_timestamp : Raised
  missing_key : String → Raised
  wrong_type : Raised

-- The algorithm is "ed25519" for every key.
pub record TrustedKey : Type 0 where
  pub key_id : String
  pub public_key_bytes : List ℕ
  pub valid_from : ℕ
  pub valid_until : Option ℕ
  pub revoked_at : Option ℕ
  pub purposes : List String
  pub note : Option String

abbrev pub is_at_or_after : Option ℕ → ℕ → Bool
is_at_or_after none time = false
is_at_or_after (some limit) time = leb limit time

abbrev pub is_after : Option ℕ → ℕ → Bool
is_after none time = false
is_after (some limit) time = ltb limit time

abbrev pub is_revoked_at : TrustedKey → ℕ → Bool
is_revoked_at key time = is_at_or_after key.revoked_at time

abbrev pub is_valid_at : TrustedKey → ℕ → Bool
is_valid_at key time =
    if ltb time key.valid_from
    then false
    else if is_after key.valid_until time
    then false
    else if is_revoked_at key time
    then false
    else true

-- TrustedKeyRegistry, with `get` and `require`
pub record KeyRegistry : Type 0 where
  pub keys : List TrustedKey
  pub registry_id : Option String

unfoldable pub find_key : String → List TrustedKey → Option TrustedKey
find_key id [] = none
find_key id (key ∷ rest) = if key.key_id == id then some key else find_key id rest

abbrev pub found_or_raise : String → Option TrustedKey → Result IntegrityError TrustedKey
found_or_raise id none = err (unknown_key_id id)
found_or_raise id (some key) = ok key

abbrev pub require_trusted : KeyRegistry → String → Result IntegrityError TrustedKey
require_trusted registry id = found_or_raise id (find_key id registry.keys)

-- What verify_artifact_signature reports.
pub data Problem : Type 0 where
  legacy_field : Problem
  digest_missing : Problem
  digest_mismatch : String → String → Problem
  target_mismatch : String → String → String → Problem
  signature_missing : Problem
  unsupported_signature : Value → Problem
  signature_incomplete : Problem
  refused : IntegrityError → Problem
  purpose_mismatch : String → String → Problem
  invalid_timestamp : Problem
  key_revoked : String → Option ℕ → ℕ → Problem
  key_not_valid : String → ℕ → ℕ → Option ℕ → Problem
  in_future : ℕ → ℕ → Problem
  too_old : ℕ → ℕ → Problem

-- `now` is a fixed time of the policy or that of the clock.
pub record TimestampPolicy : Type 0 where
  pub max_age : Option ℕ
  pub future_skew : ℕ
  pub now : Option ℕ

abbrev pub default_policy : TimestampPolicy
default_policy = record { max_age = some 31536000000000; future_skew = 300000000; now = none }

abbrev pub now_of : TimestampPolicy → ℕ → ℕ
now_of policy clock = elim policy.now [ none ↦ clock | some time ↦ time ]

abbrev pub validity_problems : TrustedKey → ℕ → List Problem
validity_problems key signed_at =
    if is_valid_at key signed_at
    then []
    else if is_revoked_at key signed_at
    then key_revoked key.key_id key.revoked_at signed_at ∷ []
    else key_not_valid key.key_id signed_at key.valid_from key.valid_until ∷ []

-- `signed_at < now - max_age`
abbrev pub age_problems : Option ℕ → ℕ → ℕ → List Problem
age_problems none signed_at now = []
age_problems (some age) signed_at now = when (ltb (signed_at + age) now) (too_old signed_at age)

-- TimestampPolicy.evaluate
unfoldable pub evaluate : TimestampPolicy → ℕ → ℕ → TrustedKey → List Problem
evaluate policy clock signed_at key =
    validity_problems key signed_at
    ++ (when (ltb (now_of policy clock + policy.future_skew) signed_at)
          (in_future signed_at (now_of policy clock))
        ++ age_problems policy.max_age signed_at (now_of policy clock))

module _ ⦃nacl : Crypto⦄ where
  -- `"=" * ((4 - len(text) % 4) % 4)`
  abbrev padding : ℕ → String
  padding n = slice "===" 0 ((4 - n % 4) % 4)

  abbrev removeprefix_0x : String → String
  removeprefix_0x text = if starts_with text "0x" then slice text 2 (len text) else text

  abbrev first_of : Option (List ℕ) → Option (List ℕ) → Option (List ℕ)
  first_of (some raw) other = some raw
  first_of none other = other

  abbrev sized : Option ℕ → Option (List ℕ) → Result IntegrityError (List ℕ)
  sized expected none = err invalid_encoding
  sized none (some raw) = ok raw
  sized (some n) (some raw) =
      if eqb (length raw) n then ok raw else err (wrong_length (length raw) n)

  unfoldable pub decode_key_bytes : String → Option ℕ → Result IntegrityError (List ℕ)
  decode_key_bytes value expected =
      let text = strip value in
      if text == ""
      then err empty_encoding
      else sized expected (
          first_of (nacl.urlsafe_b64decode (str_append text (padding (count text))))
            (first_of (nacl.b64decode text) (nacl.from_hex (removeprefix_0x text))))

  abbrev ends_with_z : String → Bool
  ends_with_z text = slice text (len text - 1) (len text) == "Z"

  unfoldable pub parse_utc_datetime : String → Option ℕ
  parse_utc_datetime value =
      let raw = strip value in
      nacl.from_isoformat
        (if ends_with_z raw then str_append (slice raw 0 (len raw - 1)) "+00:00" else raw)

  unfoldable pub sign_ed25519 : String → List ℕ → Result IntegrityError (List ℕ)
  sign_ed25519 message seed =
      if eqb (length seed) 32
      then ok (nacl.signs seed message)
      else err (wrong_seed_length (length seed))

  -- A key whose length is not 32 bytes makes the library raise a ValueError; the keys of a loaded
  -- registry have that length, and the model takes any other for a failed verification.
  unfoldable pub verify_ed25519 : String → List ℕ → List ℕ → Result IntegrityError (Unit {0})
  verify_ed25519 message signature public =
      if nacl.verifies public message signature then ok tt else err verification_failed
