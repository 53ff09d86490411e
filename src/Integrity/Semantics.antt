-- ===== src/Integrity/Semantics.antt =====
-- validate_artifact_integrity_semantics of python/pcs_core/artifact_integrity.py, and the data of a
-- registry that build_trusted_key_registry makes.
use pcs_core.Prelude.{
  ℕ, String, List, [], ◌∷◌, ◌++◌, Option, none, some, Bool, true, false, not, ◌&&◌, ◌==◌,
  if◌then◌else◌, starts_with, sort_texts, when, Result, ok, err, ◌>>=◌,
}
use pcs_core.Json.{Value, str, arr, obj, Items, nil, cons, Fields, end, field, texts, as_dict}
use pcs_core.Json.Dict.{lookup, get, put}
use pcs_core.Json.Text.{text_or}
use pcs_core.Host.{Host}
use pcs_core.Hash.{
  signature_field, artifact_digest_field, signature_object_field, canonical_hash_legacy,
  signing_message, SigningError,
}
use pcs_core.Integrity.{Crypto, Raised, TrustedKey, KeyRegistry, Problem, default_policy}
use pcs_core.Integrity.Envelope.{is_present, is_exactly, verify_artifact_signature}

-- What the semantic check reports.
pub data ShapeProblem : Type 0 where
  legacy_signature : ShapeProblem
  digest_malformed : ShapeProblem
  signature_object_missing : ShapeProblem
  message_refused : SigningError → ShapeProblem
  no_registry : ShapeProblem
  from_verification : Problem → ShapeProblem

abbrev refused_message : Result SigningError String → List ShapeProblem
refused_message (ok message) = []
refused_message (err e) = message_refused e ∷ []

abbrev all_from : List Problem → List ShapeProblem
all_from [] = []
all_from (p ∷ ps) = from_verification p ∷ all_from ps

abbrev optional : String → Option Value → Fields → Fields
optional k none rest = rest
optional k (some v) rest = field k v rest

abbrev nonempty_text : Option String → Option Value
nonempty_text none = none
nonempty_text (some s) = if s == "" then none else some (str s)

abbrev sorted_purposes : List String → Option Value
sorted_purposes [] = none
sorted_purposes (p ∷ ps) = some (arr (texts (sort_texts (p ∷ ps))))

module _ ⦃nacl : Crypto⦄ where
  abbrev time_text : Option ℕ → Option Value
  time_text none = none
  time_text (some time) = some (str (nacl.isoformat time))

  unfoldable pub trusted_key_to_dict : TrustedKey → Fields
  trusted_key_to_dict key = field "key_id" (str key.key_id) (
      field "algorithm" (str "ed25519") (
        field "public_key" (str (nacl.b64encode key.public_key_bytes)) (
          field "valid_from" (str (nacl.isoformat key.valid_from)) (
            optional "valid_until" (time_text key.valid_until) (
              optional "revoked_at" (time_text key.revoked_at) (
                optional "purposes" (sorted_purposes key.purposes)
                  (optional "note" (nonempty_text key.note) end)))))))

  abbrev key_items : List TrustedKey → Items
  key_items [] = nil
  key_items (key ∷ keys) = cons (obj (trusted_key_to_dict key)) (key_items keys)

module _ ⦃py : Host⦄ ⦃nacl : Crypto⦄ where
  abbrev signed_payload : Fields → Fields
  signed_payload payload = put signature_field (str (canonical_hash_legacy payload)) payload

  unfoldable pub build_trusted_key_registry : List TrustedKey → Option String → Fields
  build_trusted_key_registry keys id = signed_payload (
      field "schema_version" (str "v0") (
        field "artifact_type" (str "TrustedKeyRegistry.v0") (
          field "canonicalization_version" (str "v1")
            (field "keys" (arr (key_items keys)) (optional "registry_id" (nonempty_text id) end)))))

  abbrev shape_problems : String → Fields → Option Fields → List ShapeProblem
  shape_problems digest d none = signature_object_missing ∷ []
  shape_problems digest d (some sig) =
      let kind = text_or "" (get "artifact_type" d) in
      let version = text_or "" (get "schema_version" d) in
      if starts_with digest "sha256:" && not (kind == "") && not (version == "")
      then refused_message (signing_message kind version digest)
      else []

  abbrev verification :
      Option KeyRegistry → ℕ → Fields → Option Fields → Result Raised (List ShapeProblem)
  verification (some registry) clock d (some sig) =
      let checked = do
        problems ←
            verify_artifact_signature
              (record {
                registry = registry;
                policy = default_policy;
                clock = clock;
                required_purpose = none;
                expect_digest = none;
              })
              d
        ok (all_from problems)
      in if is_exactly "ed25519" (get "algorithm" sig) then checked else ok []
  verification _ clock d _ = ok []

  abbrev is_missing : Option KeyRegistry → Bool
  is_missing none = true
  is_missing (some registry) = false

  -- The registry is the one that is passed or else the one that the environment names.
  unfoldable pub validate_artifact_integrity_semantics :
      Fields → Option KeyRegistry → Bool → ℕ → Result Raised (List ShapeProblem)
  validate_artifact_integrity_semantics d registry must_verify clock = do
    let digest = text_or "" (get artifact_digest_field d)
    let sig = as_dict (get signature_object_field d)
    later ←
        if must_verify && is_missing registry
        then ok (no_registry ∷ [])
        else verification registry clock d sig
    ok (
        when (is_present (lookup signature_field d)) legacy_signature
        ++ (when (not (starts_with digest "sha256:")) digest_malformed
            ++ (shape_problems digest d sig ++ later)))
