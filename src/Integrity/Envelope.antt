-- ===== src/Integrity/Envelope.antt =====
-- Signing and verification of artifacts in python/pcs_core/artifact_integrity.py.
use pcs_core.Prelude.{
  ℕ, String, List, [], ◌∷◌, ◌++◌, Option, none, some, Bool, true, false, not, ◌&&◌, ◌||◌, ◌==◌,
  if◌then◌else◌, elem, eqb, when, starts_with, Result, ok, err, ◌>>=◌, ◌>>◌, raise_if,
}
use Prim.Native.String.{count}
use pcs_core.Json.{Value, str, obj, Fields, end, field, as_dict}
use pcs_core.Json.Dict.{lookup, get, put, without}
use pcs_core.Json.Text.{text_or, str_of}
use pcs_core.Host.{Host}
use pcs_core.Hash.{
  signature_field, artifact_digest_field, signature_object_field, hash_excluded_fields,
  placeholder_digest, canonical_hash, attach_artifact_digest, CanonicalizationError, SigningError,
  signing_message,
}
use pcs_core.Integrity.{
  Crypto, IntegrityError, Raised, canonicalization, signing, type_and_version_required, TrustedKey,
  KeyRegistry, require_trusted, Problem, legacy_field, digest_missing, digest_mismatch,
  target_mismatch, signature_missing, unsupported_signature, signature_incomplete, refused,
  purpose_mismatch, invalid_timestamp, TimestampPolicy, evaluate, decode_key_bytes,
  parse_utc_datetime, sign_ed25519, verify_ed25519, integrity,
}
use pcs_core.Integrity.Registry.{lift}

abbrev pub hashed : Result CanonicalizationError String → Result Raised String
hashed (ok digest) = ok digest
hashed (err e) = err (canonicalization e)

abbrev pub attached : Result CanonicalizationError Fields → Result Raised Fields
attached (ok sealed) = ok sealed
attached (err e) = err (canonicalization e)

abbrev pub composed : Result SigningError String → Result Raised String
composed (ok message) = ok message
composed (err e) = err (signing e)

-- body.setdefault(key, value)
abbrev pub set_default : String → Value → Fields → Fields
set_default k v d = elim (lookup k d) [ none ↦ put k v d | some w ↦ d ]

abbrev pub is_present : Option Value → Bool
is_present none = false
is_present (some v) = true

-- `value == s`
abbrev pub is_exactly : String → Value → Bool
is_exactly s (str t) = t == s
is_exactly s _ = false

-- The verification before the digest is computed, its parameters and what it looks at.
pub record Request : Type 0 where
  pub registry : KeyRegistry
  pub policy : TimestampPolicy
  pub clock : ℕ
  pub required_purpose : Option String
  pub expect_digest : Option String

abbrev pub is_empty_list : List String → Bool
is_empty_list [] = true
is_empty_list (x ∷ xs) = false

abbrev pub purpose_problems : Option String → TrustedKey → List Problem
purpose_problems none key = []
purpose_problems (some purpose) key =
    when
      (not (purpose == "") && not (elem purpose key.purposes) && not (is_empty_list key.purposes))
      (purpose_mismatch key.key_id purpose)

abbrev pub target_problems : Option String → String → String → String → List Problem
target_problems none digest recomputed target = []
target_problems (some expected) digest recomputed target =
    when (not (digest == expected) && not (recomputed == expected) && not (target == expected))
      (target_mismatch expected digest target)

abbrev pub outcome_problems : Result IntegrityError (Unit {0}) → List Problem
outcome_problems (ok u) = []
outcome_problems (err e) = refused e ∷ []

module _ ⦃py : Host⦄ ⦃nacl : Crypto⦄ where
  unfoldable pub compute_artifact_digest : Bool → Fields → Result CanonicalizationError String
  compute_artifact_digest enforce d = canonical_hash enforce (
      set_default "canonicalization_version" (str "v1")
        (put artifact_digest_field (str placeholder_digest) (without hash_excluded_fields d)))

  abbrev pub signature_object : String → String → List ℕ → Fields
  signature_object key_id time signature = field "algorithm" (str "ed25519") (
      field "key_id" (str key_id)
        (field "signed_at" (str time) (field "value" (str (nacl.b64encode signature)) end)))

  -- The signature over the message of an artifact that has its digest.
  abbrev pub sign_sealed : Fields → List ℕ → String → String → Result Raised Fields
  sign_sealed sealed seed key_id time = do
    let kind = text_or "" (get "artifact_type" sealed)
    let version = text_or "" (get "schema_version" sealed)
    raise_if (kind == "" || version == "") (integrity type_and_version_required)
    message ← composed (signing_message kind version (str_of (get artifact_digest_field sealed)))
    signature ← lift (sign_ed25519 message seed)
    ok (
        without (signature_field ∷ [])
          (put signature_object_field (obj (signature_object key_id time signature)) sealed))

  -- sign_artifact, with the time already as text
  unfoldable pub sign_artifact : Bool → Fields → List ℕ → String → String → Result Raised Fields
  sign_artifact enforce d seed key_id time = do
    sealed ← attached (attach_artifact_digest enforce d)
    sign_sealed sealed seed key_id time

  unfoldable pub build_integrity_sidecar : Fields → List ℕ → String → String → Result Raised Fields
  build_integrity_sidecar target seed key_id time = do
    digest ← hashed (compute_artifact_digest true target)
    let kind = text_or "UnknownArtifact" (get "artifact_type" target)
    sign_artifact true
        (field "schema_version" (str "v1") (
          field "artifact_type" (str "ArtifactIntegrity.v1") (
            field "canonicalization_version" (str "v1") (
              field "target_artifact_type" (str kind) (
                field "target_schema_version" (str (text_or "" (get "schema_version" target))) (
                  field "target_digest" (str digest)
                    (field "payload" (obj (field "bound_artifact_type" (str kind) end)) end)))))))
        seed key_id time

  -- The message of the artifact with its stated digest, and the signature over it.
  abbrev pub check_signature : TrustedKey → String → String → Result IntegrityError (Unit {0})
  check_signature key value message = do
    signature ← decode_key_bytes value (some 64)
    verify_ed25519 message signature key.public_key_bytes

  abbrev pub crypto_problems : Fields → String → TrustedKey → String → Result Raised (List Problem)
  crypto_problems d digest key value = do
    message ← composed (
        signing_message (text_or "" (get "artifact_type" d)) (text_or "" (get "schema_version" d))
          digest)
    ok (outcome_problems (check_signature key value message))

  abbrev pub at_time :
      Request → Fields → String → TrustedKey → String → Option ℕ → Result Raised (List Problem)
  at_time q d digest key value none = ok (invalid_timestamp ∷ [])
  at_time q d digest key value (some time) = do
    checked ← crypto_problems d digest key value
    ok (evaluate q.policy q.clock time key ++ checked)

  abbrev pub with_key :
      Request
      → Fields
      → String
      → String
      → String
      → Result IntegrityError TrustedKey
      → Result Raised (List Problem)
  with_key q d digest value signed_at (err e) = ok (refused e ∷ [])
  with_key q d digest value signed_at (ok key) = do
    rest ← at_time q d digest key value (parse_utc_datetime signed_at)
    ok (purpose_problems q.required_purpose key ++ rest)

  abbrev pub with_parts :
      Request → Fields → String → String → String → String → Result Raised (List Problem)
  with_parts q d digest key_id signed_at value =
      if key_id == "" || (signed_at == "" || value == "")
      then ok (signature_incomplete ∷ [])
      else with_key q d digest value signed_at (require_trusted q.registry key_id)

  abbrev pub with_signature :
      Request → Fields → String → Option Fields → Result Raised (List Problem)
  with_signature q d digest none = ok (signature_missing ∷ [])
  with_signature q d digest (some sig) =
      if not (is_exactly "ed25519" (get "algorithm" sig))
      then ok (unsupported_signature (get "algorithm" sig) ∷ [])
      else with_parts q d digest (text_or "" (get "key_id" sig)) (text_or "" (get "signed_at" sig))
          (text_or "" (get "value" sig))

  abbrev pub with_digest : Request → Fields → String → Result Raised (List Problem)
  with_digest q d digest = do
    recomputed ← hashed (compute_artifact_digest true d)
    rest ← with_signature q d digest (as_dict (get signature_object_field d))
    ok (
        when (not (digest == recomputed)) (digest_mismatch digest recomputed)
        ++ (target_problems q.expect_digest digest recomputed (text_or "" (get "target_digest" d))
            ++ rest))

  abbrev pub stated_digest : Request → Fields → String → Result Raised (List Problem)
  stated_digest q d digest =
      if not (starts_with digest "sha256:") || not (eqb (count digest) 71)
      then ok (digest_missing ∷ [])
      else with_digest q d digest

  unfoldable pub verify_artifact_signature : Request → Fields → Result Raised (List Problem)
  unfolding evaluate compute_artifact_digest
  verify_artifact_signature q d = do
    rest ← stated_digest q d (text_or "" (get artifact_digest_field d))
    ok (when (is_present (lookup signature_field d)) legacy_field ++ rest)
