-- ===== src/Hash.antt =====
-- python/pcs_core/hash.py: canonical JSON, the number policy, digests and the signing message.
pub mod Sorting
pub mod Same
pub mod Policy
pub mod Canonical
pub mod Digest
pub mod Signing
use Prim.Native.Char.{code}
use Prim.Native.String.{◌++◌, count}
use pcs_core.Prelude.{
  ℕ, suc, String, List, [], ◌∷◌, Option, none, some, Bool, true, false, not, ◌||◌, ◌==◌,
  starts_with, eqb, if◌then◌else◌, Result, ok, err, ◌>>=◌, ◌>>◌, raise_if, text_lt,
}
use pcs_core.Prelude.Int.{ℤ, pos, negsuc, ltb_ℤ}
use pcs_core.Json.{Value, int, float, str, arr, obj, Items, nil, cons, Fields, end, field}
use pcs_core.Json.Dict.{lookup, put, without}
use pcs_core.Json.Text.{decimal, dumps}
use pcs_core.Host.{Host}

abbrev pub signature_field : String
signature_field = "signature_or_digest"

abbrev pub artifact_digest_field : String
artifact_digest_field = "artifact_digest"

abbrev pub signature_object_field : String
signature_object_field = "signature"

abbrev pub hash_excluded_fields : List String
hash_excluded_fields = signature_field ∷ artifact_digest_field ∷ signature_object_field ∷ []

abbrev pub zeros : String
zeros = "0000000000000000000000000000000000000000000000000000000000000000"

abbrev pub placeholder_digest : String
placeholder_digest = "sha256:" ++ zeros

abbrev pub safe_integer_min : ℤ
safe_integer_min = negsuc 9007199254740990

abbrev pub safe_integer_max : ℤ
safe_integer_max = pos 9007199254740991

pub data RejectionCode : Type 0 where
  float_prohibited integer_out_of_range negative_zero : RejectionCode

-- CanonicalizationError: its code and its path.
pub record CanonicalizationError : Type 0 where
  pub code : RejectionCode
  pub path : String

abbrev pub Check : Type 0
Check = Result CanonicalizationError (Unit {0})

abbrev reject : RejectionCode → String → Check
reject c p = err (record { code = c; path = p })

check_int : String → ℤ → Check
check_int path n =
    if ltb_ℤ n safe_integer_min || ltb_ℤ safe_integer_max n
    then reject integer_out_of_range path
    else ok tt

check_float : String → String → Check
check_float path r = if r == "-0.0" then reject negative_zero path else reject float_prohibited path

-- assert_canonical_number_policy, with its two loops.
unfoldable mutual
  unfolding check_int check_float

  pub assert_number_policy : String → Value → Check
  assert_number_policy path (int n) = check_int path n
  assert_number_policy path (float r) = check_float path r
  assert_number_policy path (obj fs) = assert_fields_policy path fs
  assert_number_policy path (arr vs) = assert_items_policy path 0 vs
  assert_number_policy path _ = ok tt

  pub assert_items_policy : String → ℕ → Items → Check
  assert_items_policy path index nil = ok tt
  assert_items_policy path index (cons v vs) =
      assert_number_policy (path ++ "[" ++ decimal index ++ "]") v
      >> assert_items_policy path (suc index) vs

  pub assert_fields_policy : String → Fields → Check
  assert_fields_policy path end = ok tt
  assert_fields_policy path (field k v fs) =
      assert_number_policy (path ++ "." ++ k) v >> assert_fields_policy path fs

-- sorted(d): by insertion, entries of equal keys in their order.
unfoldable pub insert_sorted : String → Value → Fields → Fields
insert_sorted k v end = field k v end
insert_sorted k v (field j w fs) =
    if text_lt j k then field j w (insert_sorted k v fs) else field k v (field j w fs)

unfoldable mutual
  unfolding insert_sorted

  pub sort_keys : Value → Value
  sort_keys (obj fs) = obj (sort_fields fs)
  sort_keys (arr vs) = arr (sort_items vs)
  sort_keys v = v

  pub sort_items : Items → Items
  sort_items nil = nil
  sort_items (cons v vs) = cons (sort_keys v) (sort_items vs)

  pub sort_fields : Fields → Fields
  sort_fields end = end
  sort_fields (field k v fs) = insert_sorted k (sort_keys v) (sort_fields fs)

-- canonicalize_for_hash; the flag is enforce_number_policy.
unfoldable pub canonicalize_for_hash : Bool → Fields → Result CanonicalizationError Fields
canonicalize_for_hash enforce d =
    let payload = without hash_excluded_fields d in
    (if enforce then assert_number_policy "$" (obj payload) else ok tt) >> ok (sort_fields payload)

-- canonical_json_bytes: the text, of which the source takes the UTF-8 bytes.
unfoldable pub canonical_json_bytes : Bool → Fields → Result CanonicalizationError String
canonical_json_bytes enforce d = do
  canonical ← canonicalize_for_hash enforce d
  ok (dumps (obj canonical))

pub data SigningError : Type 0 where
  invalid_artifact_type invalid_schema_version invalid_artifact_digest : SigningError

-- `":" in s`
unfoldable pub has_colon : String → Bool
has_colon String.[] = false
has_colon (String.◌∷◌ c s) = eqb (code c) b':' || has_colon s

abbrev pub is_blank_or_has_colon : String → Bool
is_blank_or_has_colon s = s == "" || has_colon s

-- domain_separated_signing_message
unfoldable pub signing_message : String → String → String → Result SigningError String
signing_message kind version digest =
    raise_if (is_blank_or_has_colon kind) invalid_artifact_type
    >> raise_if (is_blank_or_has_colon version) invalid_schema_version
    >> raise_if (not (starts_with digest "sha256:") || not (eqb (count digest) 71))
        invalid_artifact_digest
    >> ok ("PCS:" ++ (kind ++ (":" ++ (version ++ (":" ++ digest)))))

module _ ⦃py : Host⦄ where
  unfoldable pub prefixed_digest : String → String
  prefixed_digest text = "sha256:" ++ py.sha256 text

  unfoldable pub canonical_hash : Bool → Fields → Result CanonicalizationError String
  unfolding prefixed_digest
  canonical_hash enforce d = do text ← canonical_json_bytes enforce d; ok (prefixed_digest text)

  -- Without the policy no exception is raised: the digest itself.
  unfoldable pub canonical_hash_legacy : Fields → String
  unfolding prefixed_digest
  canonical_hash_legacy d =
      prefixed_digest (dumps (obj (sort_fields (without hash_excluded_fields d))))

  unfoldable pub canonical_hash_release : Fields → Result CanonicalizationError String
  canonical_hash_release d = canonical_hash true d

  -- A digest or a rejection code.
  abbrev as_pair : Result CanonicalizationError String → Option String × Option RejectionCode
  as_pair (ok digest) = (some digest, none)
  as_pair (err e) = (none, some e.code)

  unfoldable pub try_canonical_hash_release : Fields → Option String × Option RejectionCode
  try_canonical_hash_release d = as_pair (canonical_hash_release d)

  -- attach_artifact_digest, the body before its digest.
  unfoldable pub digest_body : Fields → Fields
  digest_body d =
      let body =
        put artifact_digest_field (str placeholder_digest)
          (without (signature_field ∷ signature_object_field ∷ []) d) in
      elim (lookup "canonicalization_version" body) [
        | none ↦ put "canonicalization_version" (str "v1") body
        | some _ ↦ body
      ]

  unfoldable pub attach_artifact_digest : Bool → Fields → Result CanonicalizationError Fields
  attach_artifact_digest enforce d = do
    let body = digest_body d
    digest ← canonical_hash enforce body
    ok (put artifact_digest_field (str digest) body)
