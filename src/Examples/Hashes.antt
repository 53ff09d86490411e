-- ===== src/Examples/Hashes.antt =====
-- Witnesses of the theorems on hashes.
use pcs_core.Prelude.{
  String, ap, subst, ◌==◌, eq_iff, true, false, elem, Bool-cases, inl, inr, ◌≡◌, ◌↔◌, refl, ok,
}
use pcs_core.Prelude.Int.{pos}
use pcs_core.Json.{str, int, obj, Fields, end, field}
use pcs_core.Json.Dict.{lookup, get, put, without}
use pcs_core.Hash.{
  hash_excluded_fields, artifact_digest_field, assert_number_policy, canonicalize_for_hash,
  canonical_hash, canonical_hash_legacy, canonical_hash_release, signing_message,
  attach_artifact_digest, insert_sorted, sort_fields, canonical_json_bytes, digest_body,
  prefixed_digest, has_colon,
}
use pcs_core.Hash.Policy.{HasSafeNumbers, HasSafeFields, policy_iff}
use pcs_core.Hash.Canonical.{canonicalize_idem}
use pcs_core.Hash.Same.{SameEntry, same, both_present, both_absent}
use pcs_core.Hash.Sorting.{HasUniqueKeys}
use pcs_core.Hash.Digest.{
  canonical_hash-SameJson, canonical_hash_release_iff, attach-canonical_hash,
}
use pcs_core.Hash.Signing.{signing_message_inj}
use pcs_core.Examples.{demo, ok_or, no_fields}

abbrev artifact : Fields
artifact =
    field "name" (str "receipt")
      (field "count" (int (pos 3)) (field "artifact_digest" (str "old") end))

abbrev reordered : Fields
reordered = field "count" (int (pos 3)) (field "name" (str "receipt") end)

policy_iff_example :
    (assert_number_policy "$" (obj artifact) ≡ ok tt) ↔ HasSafeNumbers (obj artifact)
policy_iff_example = policy_iff "$" (obj artifact)

canonicalised : canonicalize_for_hash true artifact ≡ ok reordered
unfolding canonicalize_for_hash assert_number_policy sort_fields insert_sorted without
canonicalised = refl

canonicalize_idem_example : canonicalize_for_hash true reordered ≡ ok reordered
canonicalize_idem_example = canonicalize_idem true artifact reordered canonicalised

release_iff_example :
    (canonical_hash_release ⦃py = demo⦄ artifact ≡ ok (canonical_hash_legacy ⦃py = demo⦄ artifact))
    ↔ (HasSafeFields (without hash_excluded_fields artifact)
        × (canonical_hash_legacy ⦃py = demo⦄ artifact ≡ canonical_hash_legacy ⦃py = demo⦄ artifact))
release_iff_example =
    canonical_hash_release_iff ⦃py = demo⦄ artifact (canonical_hash_legacy ⦃py = demo⦄ artifact)

abbrev signed : Fields
unfolding attach_artifact_digest canonical_hash canonical_json_bytes canonicalize_for_hash
    assert_number_policy sort_fields insert_sorted digest_body prefixed_digest without lookup put
signed = ok_or no_fields (attach_artifact_digest ⦃py = demo⦄ true artifact)

attached : attach_artifact_digest ⦃py = demo⦄ true artifact ≡ ok signed
unfolding attach_artifact_digest canonical_hash canonical_json_bytes canonicalize_for_hash
    assert_number_policy sort_fields insert_sorted digest_body prefixed_digest without lookup put
attached = refl

attach_example :
    (h : String) × (get artifact_digest_field signed ≡ str h)
    × (canonical_hash ⦃py = demo⦄ true signed ≡ ok h)
attach_example = attach-canonical_hash ⦃py = demo⦄ true artifact signed attached

abbrev receipt_text : String
receipt_text = "Receipt"

abbrev version_text : String
version_text = "v1"

abbrev digest_text : String
digest_text = "sha256:0000000000000000000000000000000000000000000000000000000000000000"

abbrev message : String
message = "PCS:Receipt:v1:sha256:0000000000000000000000000000000000000000000000000000000000000000"

accepted : signing_message receipt_text version_text digest_text ≡ ok message
unfolding signing_message has_colon
accepted = refl

signing_message_inj_example :
    (receipt_text ≡ receipt_text) × (version_text ≡ version_text) × (digest_text ≡ digest_text)
signing_message_inj_example =
    signing_message_inj receipt_text version_text digest_text receipt_text version_text digest_text
      message accepted accepted

same_entries :
    (k : String)
    → elem k hash_excluded_fields ≡ false
    → SameEntry (lookup k artifact) (lookup k reordered)
unfolding lookup
same_entries k h = elim (Bool-cases ("name" == k)) [
  | inl n ↦
      subst (λ j. SameEntry (lookup j artifact) (lookup j reordered)) ((eq_iff "name" k).0 n)
        (both_present (same _))
  | inr n ↦ elim (Bool-cases ("count" == k)) [
    | inl c ↦ rw (n, c) (both_present (same _))
    | inr c ↦ elim (Bool-cases ("artifact_digest" == k)) [
      | inl d ↦ cc (ap (λ j. elem j hash_excluded_fields) ((eq_iff "artifact_digest" k).0 d), h)
      | inr d ↦ rw (n, c, d) both_absent
    ]
  ]
]

unique_keys : HasUniqueKeys artifact
unfolding lookup
unique_keys = (refl, (refl, (refl, tt)))

unique_keys_again : HasUniqueKeys reordered
unfolding lookup
unique_keys_again = (refl, (refl, tt))

SameJson_example :
    canonical_hash_legacy ⦃py = demo⦄ artifact ≡ canonical_hash_legacy ⦃py = demo⦄ reordered
SameJson_example =
    canonical_hash-SameJson ⦃py = demo⦄ artifact reordered unique_keys unique_keys_again
      same_entries
