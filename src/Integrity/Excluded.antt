-- ===== src/Integrity/Excluded.antt =====
-- What the digest of a signed artifact depends on.
use pcs_core.Prelude.{
  String, List, [], ◌∷◌, ◌≡◌, ◌≢◌, refl, ap, ◌∙◌, Option, none, some, Bool, true, false, not, ◌||◌,
  ◌==◌, elem, eqb, starts_with, Result, ok, ◌>>◌, raise_if, bind_ok, arith, eq_iff, Bool-cases, inl,
  inr,
}
use Prim.Native.String.{count}
use pcs_core.Json.{Value, str, obj, Fields, end, field}
use pcs_core.Json.Dict.{lookup, get, put, without, lookup-put, lookup-without, without-put, or_null}
use pcs_core.Json.Text.{text_or, str_of}
use pcs_core.Host.{Host}
use pcs_core.Hash.{
  signature_field, artifact_digest_field, signature_object_field, hash_excluded_fields,
  placeholder_digest, canonical_hash, digest_body, attach_artifact_digest, CanonicalizationError,
  SigningError, signing_message, is_blank_or_has_colon, invalid_artifact_type,
  invalid_schema_version, invalid_artifact_digest,
}
use pcs_core.Integrity.{Crypto}
use pcs_core.Integrity.Envelope.{set_default, compute_artifact_digest}

-- Keys that are taken out later may be taken out before.
without-without :
    (ks ls : List String) (fs : Fields)
    → ((j : String) → elem j ks ≡ true → elem j ls ≡ true)
    → without ls (without ks fs) ≡ without ls fs
unfolding without
without-without ks ls end h = refl
without-without ks ls (field j v fs) h = ground (arith, without-without ks ls fs h, h j)

pub get-without :
    (ks : List String) (k : String) (fs : Fields)
    → elem k ks ≡ false
    → get k (without ks fs) ≡ get k fs
unfolding get
get-without ks k fs h = ap or_null (lookup-without ks k fs) ∙ rw h refl

kept :
    (k : String) (v w : Value) (d : Fields) (o : Option Value)
    → o ≡ some w
    → (elim o [ none ↦ put k v d | some _ ↦ d ]) ≡ d
kept k v w d none h = cc
kept k v w d (some u) h = refl

set_default_kept :
    (k : String) (v w : Value) (d : Fields) → lookup k d ≡ some w → set_default k v d ≡ d
set_default_kept k v w d h = kept k v w d (lookup k d) h

version_in :
    (body : Fields) (o : Option Value)
    → lookup "canonicalization_version" body ≡ o
    → (w : Value) × (lookup "canonicalization_version"
          (elim o [ none ↦ put "canonicalization_version" (str "v1") body | some _ ↦ body ])
        ≡ some w)
version_in body none e = (
  str "v1",
  lookup-put "canonicalization_version" "canonicalization_version" (str "v1") body ∙ refl,
)
version_in body (some w) e = (w, e)

not_raised :
    (b : Bool) (e : SigningError)
    → ◌≡◌ {A = Result SigningError (Unit {0})} (raise_if b e) (ok tt)
    → b ≡ false
not_raised true e h = cc
not_raised false e h = refl

pub signing_message-digest :
    (kind version digest m : String)
    → signing_message kind version digest ≡ ok m
    → (not (starts_with digest "sha256:") || not (eqb (count digest) 71)) ≡ false
unfolding signing_message
signing_message-digest kind version digest m h =
    let (_, checked, _) =
      bind_ok
        (raise_if (is_blank_or_has_colon kind) invalid_artifact_type
          >> raise_if (is_blank_or_has_colon version) invalid_schema_version
          >> raise_if (not (starts_with digest "sha256:") || not (eqb (count digest) 71))
              invalid_artifact_digest)
        _ h in
    let (_, _, last) =
      bind_ok
        (raise_if (is_blank_or_has_colon kind) invalid_artifact_type
          >> raise_if (is_blank_or_has_colon version) invalid_schema_version)
        (λ _.
          raise_if (not (starts_with digest "sha256:") || not (eqb (count digest) 71))
            invalid_artifact_digest)
        checked in
    not_raised (not (starts_with digest "sha256:") || not (eqb (count digest) 71))
      invalid_artifact_digest last

module _ ⦃py : Host⦄ where
  -- The body that is hashed states its version.
  pub digest_body-version :
      (d : Fields) → (w : Value) × (lookup "canonicalization_version" (digest_body d) ≡ some w)
  unfolding digest_body
  digest_body-version d =
      let body =
        put artifact_digest_field (str placeholder_digest)
          (without (signature_field ∷ signature_object_field ∷ []) d) in
      version_in body (lookup "canonicalization_version" body) refl

  canonical_hash_cong :
      (enforce : Bool) (a b : Fields)
      → without hash_excluded_fields a ≡ without hash_excluded_fields b
      → canonical_hash enforce a ≡ canonical_hash enforce b
  unfolding canonical_hash pcs_core.Hash.canonical_json_bytes pcs_core.Hash.canonicalize_for_hash
  canonical_hash_cong enforce a b h = rw h refl

  pub text_of_nonempty : (s : String) → s ≢ "" → text_or "" (str s) ≡ s
  unfolding str_of
  text_of_nonempty s h = elim (Bool-cases (s == "")) [
    | inl e ↦ absurd (h ((eq_iff s "").0 e))
    | inr e ↦ rw e refl
  ]

  -- The artifact without the legacy field, with its digest and its signature.
  abbrev pub sealed_with : Fields → String → Fields → Fields
  sealed_with body digest sig =
      without (signature_field ∷ [])
        (put signature_object_field (obj sig) (put artifact_digest_field (str digest) body))

  legacy_excluded :
      (j : String) → elem j (signature_field ∷ []) ≡ true → elem j hash_excluded_fields ≡ true
  legacy_excluded j h = ground arith

  -- What is excluded from the digest does not matter to it.
  hashed_part :
      (body : Fields) (digest : String) (sig : Fields)
      → without hash_excluded_fields (sealed_with body digest sig)
        ≡ without hash_excluded_fields body
  hashed_part body digest sig =
      without-without (signature_field ∷ []) hash_excluded_fields _ legacy_excluded
      ∙ without-put hash_excluded_fields signature_object_field (obj sig) _ refl
      ∙ without-put hash_excluded_fields artifact_digest_field (str digest) body refl

  version_kept :
      (body : Fields) (digest : String) (sig : Fields) (w : Value)
      → lookup "canonicalization_version" body ≡ some w
      → lookup "canonicalization_version" (
          put artifact_digest_field
            (str placeholder_digest)
            (without hash_excluded_fields (sealed_with body digest sig)))
        ≡ some w
  version_kept body digest sig w h =
      lookup-put artifact_digest_field "canonicalization_version" _ _
      ∙ ap (λ x. lookup "canonicalization_version" x) (hashed_part body digest sig)
      ∙ lookup-without hash_excluded_fields "canonicalization_version" body
      ∙ h

module _ ⦃py : Host⦄ ⦃nacl : Crypto⦄ where
  pub digest_sealed :
      (body : Fields) (digest : String) (sig : Fields) (w : Value)
      → lookup "canonicalization_version" body ≡ some w
      → compute_artifact_digest true (sealed_with body digest sig) ≡ canonical_hash true body
  unfolding compute_artifact_digest
  digest_sealed body digest sig w h =
      ap (canonical_hash true) (
        set_default_kept "canonicalization_version" (str "v1") w _
          (version_kept body digest sig w h))
      ∙ canonical_hash_cong true _ body (
          without-put hash_excluded_fields artifact_digest_field (str placeholder_digest) _ refl
          ∙ without-without hash_excluded_fields hash_excluded_fields (sealed_with body digest sig)
              (λ j e. e)
          ∙ hashed_part body digest sig)
