-- ===== src/Integrity/Authentic.antt =====
-- What a verified signature guarantees.
use pcs_core.Prelude.{
  ℕ, String, List, [], ◌∷◌, ◌≡◌, refl, sym, ap, ◌∙◌, Option, none, some, Bool, true, false, not,
  ◌||◌, ◌==◌, if◌then◌else◌, when, Result, ok, err, bind_ok, eq_iff,
}
use pcs_core.Json.{Value, str, Fields, as_dict}
use pcs_core.Json.Dict.{lookup, get}
use pcs_core.Json.Text.{text_or}
use pcs_core.Host.{Host}
use pcs_core.Hash.{
  signature_field, artifact_digest_field, signature_object_field, CanonicalizationError,
  SigningError, signing_message,
}
use pcs_core.Runtime.Chain.Meaning.{nil_of_append, when-eq-nil}
use pcs_core.Contract.Pre.{unrefuted}
use pcs_core.Integrity.{
  Crypto, IntegrityError, Raised, TrustedKey, find_key, found_or_raise, require_trusted, Problem,
  evaluate, decode_key_bytes, parse_utc_datetime, verify_ed25519,
}
use pcs_core.Integrity.Envelope.{
  hashed, composed, is_exactly, is_present, Request, purpose_problems, target_problems,
  outcome_problems, compute_artifact_digest, check_signature, crypto_problems, at_time, with_key,
  with_parts, with_signature, with_digest, stated_digest, verify_artifact_signature,
}
use pcs_core.Integrity.Timely.{IsTimely, evaluate-IsTimely}

ok_nil :
    {E : Type 0} {xs ys : List Problem}
    → ◌≡◌ {A = Result E (List Problem)} (ok xs) (ok ys)
    → xs ≡ ys
ok_nil h = cc

-- A test that reports nothing leaves the rest.
not_reported :
    (b : Bool) (x : Problem) (rest : Result Raised (List Problem))
    → (if b then ok (x ∷ []) else rest) ≡ ok []
    → b ≡ false
not_reported true x rest h = cc
not_reported false x rest h = refl

passed :
    (b : Bool) (x : Problem) (rest : Result Raised (List Problem))
    → (if b then ok (x ∷ []) else rest) ≡ ok []
    → rest ≡ ok []
passed true x rest h = cc
passed false x rest h = h

hashed_ok : (r : Result CanonicalizationError String) (s : String) → hashed r ≡ ok s → r ≡ ok s
hashed_ok (ok t) s h = cc
hashed_ok (err e) s h = cc

pub composed_ok : (r : Result SigningError String) (s : String) → composed r ≡ ok s → r ≡ ok s
composed_ok (ok t) s h = cc
composed_ok (err e) s h = cc

outcome_ok : (r : Result IntegrityError (Unit {0})) → outcome_problems r ≡ [] → r ≡ ok tt
outcome_ok (ok tt) h = refl
outcome_ok (err e) h = cc

exactly : (s : String) (v : Value) → is_exactly s v ≡ true → v ≡ str s
exactly s (str t) h = ap str ((eq_iff t s).0 h)
exactly s (_) h = cc

accepted :
    (b : Bool) (e : IntegrityError)
    → ◌≡◌ {A = Result IntegrityError (Unit {0})} (if b then ok tt else err e) (ok tt)
    → b ≡ true
accepted true e h = refl
accepted false e h = cc

module _ ⦃py : Host⦄ ⦃nacl : Crypto⦄ where
  -- A trusted key that was valid when it signed the type, the version and the digest of the artifact.
  pub record IsSigned (q : Request) (d : Fields) (digest : String) (sig : Fields) : Type 0 where
    pub key : TrustedKey
    pub time : ℕ
    pub message : String
    pub bytes : List ℕ
    pub trusted : find_key (text_or "" (get "key_id" sig)) q.registry.keys ≡ some key
    pub signed_at : parse_utc_datetime (text_or "" (get "signed_at" sig)) ≡ some time
    pub timely : IsTimely q.policy q.clock time key
    pub composed_from :
        signing_message
          (text_or "" (get "artifact_type" d))
          (text_or "" (get "schema_version" d))
          digest
        ≡ ok message
    pub decoded : decode_key_bytes (text_or "" (get "value" sig)) (some 64) ≡ ok bytes
    pub verified : nacl.verifies key.public_key_bytes message bytes ≡ true

  pub record IsAuthentic (q : Request) (d : Fields) (digest : String) : Type 0 where
    pub not_legacy : is_present (lookup signature_field d) ≡ false
    pub digest_matches : compute_artifact_digest true d ≡ ok digest
    pub sig : Fields
    pub has_signature : as_dict (get signature_object_field d) ≡ some sig
    pub is_ed25519 : get "algorithm" sig ≡ str "ed25519"
    pub signed : IsSigned q d digest sig

  verify_sound :
      (m : String) (bytes public : List ℕ)
      → verify_ed25519 m bytes public ≡ ok tt
      → nacl.verifies public m bytes ≡ true
  unfolding verify_ed25519
  verify_sound m bytes public h = accepted (nacl.verifies public m bytes) _ h

  crypto_sound :
      (d : Fields) (digest : String) (key : TrustedKey) (value : String)
      → crypto_problems d digest key value ≡ ok []
      → (m : String) × (bytes : List ℕ) × (signing_message
            (text_or "" (get "artifact_type" d))
            (text_or "" (get "schema_version" d))
            digest
          ≡ ok m)
        × (decode_key_bytes value (some 64) ≡ ok bytes)
        × (nacl.verifies key.public_key_bytes m bytes ≡ true)
  crypto_sound d digest key value h =
      let (m, made, checked) =
        bind_ok
          (composed (
            signing_message (text_or "" (get "artifact_type" d))
              (text_or "" (get "schema_version" d)) digest))
          _ h in
      let (bytes, decoded, verified) =
        bind_ok (decode_key_bytes value (some 64)) (λ s. verify_ed25519 m s key.public_key_bytes)
          (outcome_ok (check_signature key value m) (ok_nil checked)) in
      (m, bytes, composed_ok _ m made, decoded, verify_sound m bytes key.public_key_bytes verified)

  at_time-IsSigned :
      (q : Request) (d sig : Fields) (digest : String) (key : TrustedKey) (o : Option ℕ)
      → find_key (text_or "" (get "key_id" sig)) q.registry.keys ≡ some key
      → parse_utc_datetime (text_or "" (get "signed_at" sig)) ≡ o
      → at_time q d digest key (text_or "" (get "value" sig)) o ≡ ok []
      → IsSigned q d digest sig
  at_time-IsSigned q d sig digest key none found parsed h = cc
  at_time-IsSigned q d sig digest key (some time) found parsed h =
      let (checked, crypto, made) =
        bind_ok (crypto_problems d digest key (text_or "" (get "value" sig))) _ h in
      let (timely, valid) =
        nil_of_append (evaluate q.policy q.clock time key) checked (ok_nil made) in
      let (m, bytes, composed_from, decoded, verified) =
        crypto_sound d digest key (text_or "" (get "value" sig)) (crypto ∙ ap ok valid) in
      record {
        key = key;
        time = time;
        message = m;
        bytes = bytes;
        trusted = found;
        signed_at = parsed;
        timely = evaluate-IsTimely q.policy q.clock time key timely;
        composed_from = composed_from;
        decoded = decoded;
        verified = verified;
      }

  with_key-IsSigned :
      (q : Request) (d sig : Fields) (digest : String) (o : Option TrustedKey)
      → find_key (text_or "" (get "key_id" sig)) q.registry.keys ≡ o
      → with_key q d digest
          (text_or "" (get "value" sig))
          (text_or "" (get "signed_at" sig))
          (found_or_raise (text_or "" (get "key_id" sig)) o)
        ≡ ok []
      → IsSigned q d digest sig
  with_key-IsSigned q d sig digest none found h = cc
  with_key-IsSigned q d sig digest (some key) found h =
      let (rest, checked, made) =
        bind_ok
          (at_time q d digest key (text_or "" (get "value" sig))
            (parse_utc_datetime (text_or "" (get "signed_at" sig))))
          _ h in
      let (_, none_left) =
        nil_of_append (purpose_problems q.required_purpose key) rest (ok_nil made) in
      at_time-IsSigned q d sig digest key _ found refl (checked ∙ ap ok none_left)

  with_signature-IsSigned :
      (q : Request) (d : Fields) (digest : String) (o : Option Fields)
      → with_signature q d digest o ≡ ok []
      → (sig : Fields) × (o ≡ some sig)
        × (get "algorithm" sig ≡ str "ed25519")
        × IsSigned q d digest sig
  with_signature-IsSigned q d digest none h = cc
  with_signature-IsSigned q d digest (some sig) h =
      let algorithm = is_exactly "ed25519" (get "algorithm" sig) in
      let key_id = text_or "" (get "key_id" sig) in
      let signed_at = text_or "" (get "signed_at" sig) in
      let value = text_or "" (get "value" sig) in
      let parts = passed (not algorithm) _ (with_parts q d digest key_id signed_at value) h in
      let keyed =
        passed (key_id == "" || (signed_at == "" || value == "")) _
          (with_key q d digest value signed_at (require_trusted q.registry key_id)) parts in
      (
        sig,
        refl,
        exactly "ed25519" (get "algorithm" sig) (
            unrefuted algorithm
              (not_reported (not algorithm) _ (with_parts q d digest key_id signed_at value) h)),
        with_key-IsSigned q d sig digest _ refl keyed,
      )

  with_digest-IsAuthentic :
      (q : Request) (d : Fields) (digest : String)
      → is_present (lookup signature_field d) ≡ false
      → with_digest q d digest ≡ ok []
      → IsAuthentic q d digest
  with_digest-IsAuthentic q d digest legacy h =
      let (recomputed, made, h₁) = bind_ok (hashed (compute_artifact_digest true d)) _ h in
      let (rest, signed, h₂) =
        bind_ok (with_signature q d digest (as_dict (get signature_object_field d))) _ h₁ in
      let (matches, others) = nil_of_append (when (not (digest == recomputed)) _) _ (ok_nil h₂) in
      let (_, none_left) =
        nil_of_append
          (target_problems q.expect_digest digest recomputed (text_or "" (get "target_digest" d)))
          rest others in
      let (sig, found, algorithm, by) =
        with_signature-IsSigned q d digest (as_dict (get signature_object_field d))
          (signed ∙ ap ok none_left) in
      record {
        not_legacy = legacy;
        digest_matches =
            hashed_ok _ recomputed made
            ∙ ap ok (sym ((eq_iff digest recomputed).0 (unrefuted _ (when-eq-nil _ _ matches))));
        sig = sig;
        has_signature = found;
        is_ed25519 = algorithm;
        signed = by;
      }

  -- An artifact whose verification reports nothing has no field of the old format and states the
  -- digest that is recomputed for it; its signature is by a trusted key that had begun, not ended and
  -- not been revoked at the time of signing, which lies, by the policy, neither ahead of the clock nor
  -- too far back, and it verifies for the message of the type, the version and the digest.
  pub verify_artifact_signature-IsAuthentic :
      (q : Request) (d : Fields)
      → verify_artifact_signature q d ≡ ok []
      → IsAuthentic q d (text_or "" (get artifact_digest_field d))
  unfolding verify_artifact_signature
  verify_artifact_signature-IsAuthentic q d h =
      let digest = text_or "" (get artifact_digest_field d) in
      let (rest, stated, made) = bind_ok (stated_digest q d digest) _ h in
      let (legacy, none_left) =
        nil_of_append (when (is_present (lookup signature_field d)) _) rest (ok_nil made) in
      with_digest-IsAuthentic q d digest (when-eq-nil _ _ legacy)
        (passed _ _ (with_digest q d digest) (stated ∙ ap ok none_left))
