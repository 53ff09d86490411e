-- ===== src/Examples/Integrities.antt =====
-- A stand-in for the cryptography, and a witness of the theorem on signatures.
use pcs_core.Prelude.{String, ℕ, List, [], ◌∷◌, ◌≡◌, refl, none, some, true, ok}
use pcs_core.Json.{str, Fields, end, field}
use pcs_core.Json.Dict.{get}
use pcs_core.Json.Text.{text_or}
use pcs_core.Hash.{artifact_digest_field}
use pcs_core.Integrity.{
  Crypto, TrustedKey, KeyRegistry, default_policy, evaluate, find_key, parse_utc_datetime,
  decode_key_bytes,
}
use pcs_core.Integrity.Envelope.{Request, sign_artifact, verify_artifact_signature}
use pcs_core.Integrity.Authentic.{IsAuthentic, verify_artifact_signature-IsAuthentic}
use pcs_core.Integrity.Roundtrip.{sign_artifact-verify}
use pcs_core.Examples.{demo, no_fields, ok_or}

abbrev eight : List ℕ → List ℕ
eight rest = 0 ∷ 0 ∷ 0 ∷ 0 ∷ 0 ∷ 0 ∷ 0 ∷ 0 ∷ rest

abbrev sixty_four : List ℕ
sixty_four = eight (eight (eight (eight (eight (eight (eight (eight [])))))))

-- Every signature verifies, and every time is the same.
abbrev pub demo_crypto : Crypto
demo_crypto = record {
  urlsafe_b64decode = λ s. some sixty_four;
  b64decode = λ s. none;
  from_hex = λ s. none;
  b64encode = λ raw. "AA";
  from_isoformat = λ s. some 100;
  isoformat = λ time. "2024-01-01T00:00:00Z";
  verifies = λ public message signature. true;
  signs = λ seed message. sixty_four;
}

abbrev trusted_key : TrustedKey
trusted_key = record {
  key_id = "k-1";
  public_key_bytes = [];
  valid_from = 50;
  valid_until = some 200;
  revoked_at = none;
  purposes = [];
  note = none;
}

abbrev request : Request
request = record {
  registry = record { keys = trusted_key ∷ []; registry_id = none };
  policy = default_policy;
  clock = 100;
  required_purpose = none;
  expect_digest = none;
}

abbrev release : Fields
release = field "artifact_type" (str "ReleaseManifest.v0") (field "schema_version" (str "v0") end)

abbrev release_seed : List ℕ
release_seed = eight (eight (eight (eight [])))

abbrev signed_release : Fields
signed_release = ok_or no_fields (
    sign_artifact ⦃py = demo⦄ ⦃nacl = demo_crypto⦄ true release (eight (eight (eight (eight []))))
      "k-1" "2024-01-01T00:00:00Z")

release_verified :
    verify_artifact_signature ⦃py = demo⦄ ⦃nacl = demo_crypto⦄ request signed_release ≡ ok []
unfolding verify_artifact_signature sign_artifact get pcs_core.Hash.attach_artifact_digest
    pcs_core.Hash.canonical_hash pcs_core.Hash.canonical_json_bytes
    pcs_core.Hash.canonicalize_for_hash pcs_core.Hash.assert_number_policy
    pcs_core.Json.Dict.without pcs_core.Hash.digest_body pcs_core.Json.Dict.put
    pcs_core.Json.Text.str_of pcs_core.Hash.signing_message pcs_core.Hash.has_colon
    pcs_core.Integrity.sign_ed25519 pcs_core.Integrity.find_key
    pcs_core.Integrity.parse_utc_datetime pcs_core.Integrity.decode_key_bytes
    pcs_core.Json.Text.strip pcs_core.Integrity.verify_ed25519
release_verified = refl

signed_release_example :
    IsAuthentic ⦃py = demo⦄ ⦃nacl = demo_crypto⦄ request signed_release
      (text_or ⦃py = demo⦄ "" (get artifact_digest_field signed_release))
signed_release_example =
    verify_artifact_signature-IsAuthentic ⦃py = demo⦄ ⦃nacl = demo_crypto⦄ request signed_release
      release_verified

release_signed :
    sign_artifact ⦃py = demo⦄ ⦃nacl = demo_crypto⦄ true release release_seed "k-1"
      "2024-01-01T00:00:00Z"
    ≡ ok signed_release
unfolding verify_artifact_signature sign_artifact get pcs_core.Hash.attach_artifact_digest
    pcs_core.Hash.canonical_hash pcs_core.Hash.canonical_json_bytes
    pcs_core.Hash.canonicalize_for_hash pcs_core.Hash.assert_number_policy
    pcs_core.Json.Dict.without pcs_core.Hash.digest_body pcs_core.Json.Dict.put
    pcs_core.Json.Text.str_of pcs_core.Hash.signing_message pcs_core.Hash.has_colon
    pcs_core.Integrity.sign_ed25519 pcs_core.Integrity.find_key
    pcs_core.Integrity.parse_utc_datetime pcs_core.Integrity.decode_key_bytes
    pcs_core.Json.Text.strip pcs_core.Integrity.verify_ed25519
release_signed = refl

timely : evaluate request.policy request.clock 100 trusted_key ≡ []
unfolding evaluate
timely = refl

key_found : find_key "k-1" request.registry.keys ≡ some trusted_key
unfolding find_key
key_found = refl

time_parsed : parse_utc_datetime ⦃nacl = demo_crypto⦄ "2024-01-01T00:00:00Z" ≡ some 100
unfolding parse_utc_datetime
time_parsed = refl

decoded :
    (m : String)
    → decode_key_bytes ⦃nacl = demo_crypto⦄
        (demo_crypto.b64encode (demo_crypto.signs release_seed m))
        (some 64)
      ≡ ok (demo_crypto.signs release_seed m)
unfolding decode_key_bytes pcs_core.Json.Text.strip
decoded m = refl

sign_example :
    verify_artifact_signature ⦃py = demo⦄ ⦃nacl = demo_crypto⦄ request signed_release ≡ ok []
sign_example =
    sign_artifact-verify ⦃py = demo⦄ ⦃nacl = demo_crypto⦄ request release signed_release
      release_seed "k-1" "2024-01-01T00:00:00Z" trusted_key 100 release_signed key_found time_parsed
      timely refl refl (λ m. refl) decoded (λ e. cc e) (λ e. cc e)
