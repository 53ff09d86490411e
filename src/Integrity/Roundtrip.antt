-- ===== src/Integrity/Roundtrip.antt =====
-- A signed artifact verifies.
use pcs_core.Prelude.{
  ℕ, String, List, [], ◌++◌, ◌≡◌, ◌≢◌, refl, sym, ap, ◌∙◌, subst, Option, none, some, Bool, true,
  false, not, ◌||◌, ◌==◌, if◌then◌else◌, eqb, when, starts_with, Result, ok, ◌>>=◌, arith, eq_iff,
  eq_refl,
}
use Prim.Native.String.{count}
use pcs_core.Json.{Value, str, obj, Fields}
use pcs_core.Json.Dict.{lookup, get}
use pcs_core.Json.Text.{text_or, strip}
use pcs_core.Host.{Host}
use pcs_core.Hash.{
  signature_field, artifact_digest_field, signature_object_field, digest_body, signing_message,
}
use pcs_core.Integrity.{
  Crypto, Raised, TrustedKey, find_key, evaluate, Problem, legacy_field, decode_key_bytes,
  parse_utc_datetime, verify_ed25519,
}
use pcs_core.Integrity.Envelope.{
  Request, purpose_problems, signature_object, compute_artifact_digest, sign_artifact,
  verify_artifact_signature, crypto_problems, with_key, with_parts, with_signature, with_digest,
  stated_digest, is_present,
}
use pcs_core.Integrity.Sealed.{
  sign_artifact-IsSealed, get-sealed, no_legacy, object-sealed, digest-sealed,
}
use pcs_core.Integrity.Excluded.{
  text_of_nonempty, digest_body-version, sealed_with, digest_sealed, signing_message-digest,
}

no_prefix :
    (s : String) → (not (starts_with s "sha256:") || not (eqb (count s) 71)) ≡ false → s ≢ ""
no_prefix s h e = absurd (
    false_is_not
      (subst (λ x. (not (starts_with x "sha256:") || not (eqb (count x) 71)) ≡ false) e h))
  where
    false_is_not : true ≡ false → ⊥
    false_is_not k = cc

blank_not : (s : String) → s ≢ "" → (s == "") ≡ false
blank_not s h = ground (arith, eq_iff s "")

module _ ⦃py : Host⦄ ⦃nacl : Crypto⦄ where
  crypto_ok :
      (d : Fields) (digest m value : String) (key : TrustedKey) (bytes : List ℕ)
      → signing_message
          (text_or "" (get "artifact_type" d))
          (text_or "" (get "schema_version" d))
          digest
        ≡ ok m
      → decode_key_bytes value (some 64) ≡ ok bytes
      → nacl.verifies key.public_key_bytes m bytes ≡ true
      → crypto_problems d digest key value ≡ ok []
  unfolding verify_ed25519
  crypto_ok d digest m value key bytes message decoded verified =
      rw (message, decoded, verified) refl

  with_key_ok :
      (q : Request) (d : Fields) (digest value signed_at : String) (key : TrustedKey) (time : ℕ)
      → parse_utc_datetime signed_at ≡ some time
      → evaluate q.policy q.clock time key ≡ []
      → purpose_problems q.required_purpose key ≡ []
      → crypto_problems d digest key value ≡ ok []
      → with_key q d digest value signed_at (ok key) ≡ ok []
  with_key_ok q d digest value signed_at key time parsed timely purpose crypto =
      rw (parsed, crypto, timely, purpose) refl

  with_parts_ok :
      (q : Request) (d : Fields) (digest id signed_at value : String) (key : TrustedKey)
      → id ≢ ""
      → signed_at ≢ ""
      → value ≢ ""
      → find_key id q.registry.keys ≡ some key
      → with_key q d digest value signed_at (ok key) ≡ ok []
      → with_parts q d digest id signed_at value ≡ ok []
  with_parts_ok q d digest id signed_at value key a b c found h =
      rw (blank_not id a, blank_not signed_at b, blank_not value c, found) h

  with_digest_ok :
      (q : Request) (d sig : Fields) (digest : String)
      → compute_artifact_digest true d ≡ ok digest
      → get signature_object_field d ≡ obj sig
      → q.expect_digest ≡ none
      → with_signature q d digest (some sig) ≡ ok []
      → with_digest q d digest ≡ ok []
  with_digest_ok q d sig digest hashed_to found expected h =
      rw (hashed_to, found, h, eq_refl digest, expected) refl

  otherwise :
      (b : Bool) (x rest : Result Raised (List Problem))
      → b ≡ false
      → rest ≡ ok []
      → (if b then x else rest) ≡ ok []
  otherwise true x rest e h = cc
  otherwise false x rest e h = h

  reported_none :
      (r : Result Raised (List Problem)) (o : Option Value)
      → r ≡ ok []
      → o ≡ none
      → (r >>= λ rest. ok (when (is_present o) legacy_field ++ rest)) ≡ ok []
  reported_none r o h e = rw (h, e) refl

  signature_ok :
      (q : Request) (d : Fields) (digest id time : String) (bytes : List ℕ)
      → id ≢ ""
      → time ≢ ""
      → nacl.b64encode bytes ≢ ""
      → with_parts q d digest id time (nacl.b64encode bytes) ≡ ok []
      → with_signature q d digest (some (signature_object id time bytes)) ≡ ok []
  unfolding get lookup
  signature_ok q d digest id time bytes a b c h =
      rw (text_of_nonempty id a, text_of_nonempty time b, text_of_nonempty (nacl.b64encode bytes) c)
        h

  verify_ok :
      (q : Request) (d : Fields) (digest : String)
      → get artifact_digest_field d ≡ str digest
      → (not (starts_with digest "sha256:") || not (eqb (count digest) 71)) ≡ false
      → lookup signature_field d ≡ none
      → with_digest q d digest ≡ ok []
      → verify_artifact_signature q d ≡ ok []
  unfolding verify_artifact_signature
  verify_ok q d digest states shape legacy h =
      let same = ap (text_or "") states ∙ text_of_nonempty digest (no_prefix digest shape) in
      reported_none (stated_digest q d (text_or "" (get artifact_digest_field d)))
        (lookup signature_field d)
        (ap (stated_digest q d) same ∙ otherwise _ _ (with_digest q d digest) shape h) legacy

  undecoded : (bytes : List ℕ) → decode_key_bytes "" (some 64) ≡ ok bytes → ⊥
  unfolding decode_key_bytes strip
  undecoded bytes h = cc

  value_nonempty :
      (value : String) (bytes : List ℕ) → decode_key_bytes value (some 64) ≡ ok bytes → value ≢ ""
  unfolding decode_key_bytes strip
  value_nonempty value bytes h e =
      undecoded bytes (sym (ap (λ v. decode_key_bytes v (some 64)) e) ∙ h)

  -- An artifact that is signed verifies without a report, where the trusted key of the id verifies what
  -- the seed signs, its signatures survive their encoding, the time of signing is read and meets the
  -- policy, the purpose is granted, no other digest is expected, and neither the id nor the time is
  -- empty.
  pub sign_artifact-verify :
      (q : Request) (d signed : Fields) (seed : List ℕ) (id time : String) (key : TrustedKey)
      (at : ℕ)
      → sign_artifact true d seed id time ≡ ok signed
      → find_key id q.registry.keys ≡ some key
      → parse_utc_datetime time ≡ some at
      → evaluate q.policy q.clock at key ≡ []
      → purpose_problems q.required_purpose key ≡ []
      → q.expect_digest ≡ none
      → ((m : String) → nacl.verifies key.public_key_bytes m (nacl.signs seed m) ≡ true)
      → ((m : String)
          → decode_key_bytes (nacl.b64encode (nacl.signs seed m)) (some 64)
            ≡ ok (nacl.signs seed m))
      → id ≢ ""
      → time ≢ ""
      → verify_artifact_signature q signed ≡ ok []
  sign_artifact-verify q d signed seed id time key at made found parsed timely purpose expected
        verifies decodes id_given time_given =
      let s = sign_artifact-IsSealed d seed id time signed made in
      let body = digest_body d in
      let bytes = nacl.signs seed s.message in
      let sig = signature_object id time bytes in
      let sealed = sealed_with body s.digest sig in
      let (version, stated) = digest_body-version d in
      let message : signing_message (text_or "" (get "artifact_type" sealed))
            (text_or "" (get "schema_version" sealed)) s.digest
          ≡ ok s.message =
        rw
          (
            get-sealed "artifact_type" body s.digest sig refl refl,
            get-sealed "schema_version" body s.digest sig refl refl,
          )
          s.composed_from in
      let crypto =
        crypto_ok sealed s.digest s.message (nacl.b64encode bytes) key bytes message
          (decodes s.message) (verifies s.message) in
      let given = value_nonempty (nacl.b64encode bytes) bytes (decodes s.message) in
      let parts =
        with_parts_ok q sealed s.digest id time (nacl.b64encode bytes) key id_given time_given given
          found
          (with_key_ok q sealed s.digest (nacl.b64encode bytes) time key at parsed timely purpose
            crypto) in
      subst (λ x. verify_artifact_signature q x ≡ ok []) (sym s.made)
        (verify_ok q sealed s.digest (digest-sealed body s.digest sig)
          (signing_message-digest _ _ s.digest s.message s.composed_from)
          (no_legacy body s.digest sig)
          (with_digest_ok q sealed sig s.digest
            (digest_sealed body s.digest sig version stated ∙ s.hashed_body)
            (object-sealed body s.digest sig) expected
            (signature_ok q sealed s.digest id time bytes id_given time_given given parts)))
