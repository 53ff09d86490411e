-- ===== src/Integrity/Registry.antt =====
-- Loading of a registry of trusted keys, and the revocation of a key in its data, in
-- python/pcs_core/artifact_integrity.py. The data is a mapping; the files are read elsewhere.
use pcs_core.Prelude.{
  ℕ, suc, String, List, [], ◌∷◌, Option, none, some, Bool, true, false, not, ◌==◌, if◌then◌else◌,
  elem, map, Result, ok, err, ◌>>=◌, ◌>>◌, raise_if,
}
use pcs_core.Json.{Value, null, str, arr, obj, Items, nil, cons, Fields, as_list, truthy}
use pcs_core.Json.Dict.{lookup, get, put, without}
use pcs_core.Json.Text.{str_of, text_or}
use pcs_core.Host.{Host}
use pcs_core.Hash.{signature_field, canonical_hash_legacy}
use pcs_core.Integrity.{
  Crypto, IntegrityError, Raised, integrity, bad_timestamp, missing_key, wrong_type, unknown_key_id,
  unexpected_registry_type, keys_not_an_array, key_not_an_object, key_id_missing, duplicate_key_id,
  unsupported_algorithm, purposes_not_an_array, TrustedKey, KeyRegistry, decode_key_bytes,
  parse_utc_datetime,
}

abbrev pub lift : {A : Type 0} → Result IntegrityError A → Result Raised A
lift (ok a) = ok a
lift (err e) = err (integrity e)

-- `value not in {None, s}` raises e; a list or a dictionary is not hashable.
abbrev none_or : String → IntegrityError → Value → Result Raised (Unit {0})
none_or s e null = ok tt
none_or s e (str t) = raise_if (not (t == s)) (integrity e)
none_or s e (obj fs) = err wrong_type
none_or s e (arr vs) = err wrong_type
none_or s e _ = err (integrity e)

abbrev require_field : String → Fields → Result Raised Value
require_field k d = elim (lookup k d) [ none ↦ err (missing_key k) | some v ↦ ok v ]

-- `entry.get("purposes") or []`
abbrev purposes_of : String → Value → Result Raised (List Value)
purposes_of id v =
    if truthy v
    then elim (as_list v) [ none ↦ err (integrity (purposes_not_an_array id)) | some ps ↦ ok ps ]
    else ok []

module _ ⦃py : Host⦄ ⦃nacl : Crypto⦄ where
  abbrev parsed : String → Result Raised ℕ
  parsed s = elim (parse_utc_datetime s) [ none ↦ err bad_timestamp | some time ↦ ok time ]

  abbrev optional_time : Value → Result Raised (Option ℕ)
  optional_time null = ok none
  optional_time (str s) = do time ← parsed s; ok (some time)
  optional_time _ = err wrong_type

  abbrev note_of : Value → Option String
  note_of v = if truthy v then some (str_of v) else none

  -- The rest of an entry: build_trusted_key on its fields.
  unfoldable pub build_trusted_key : String → Fields → List Value → Result Raised TrustedKey
  build_trusted_key id entry purposes = do
    public ← require_field "public_key" entry
    since ← require_field "valid_from" entry
    key ← lift (decode_key_bytes (str_of public) (some 32))
    from ← parsed (str_of since)
    until ← optional_time (get "valid_until" entry)
    revoked ← optional_time (get "revoked_at" entry)
    ok (record {
      key_id = id;
      public_key_bytes = key;
      valid_from = from;
      valid_until = until;
      revoked_at = revoked;
      purposes = map str_of purposes;
      note = note_of (get "note" entry);
    })

  -- One pass of the loop over the keys.
  unfoldable pub load_key : List String → ℕ → Fields → Result Raised TrustedKey
  unfolding build_trusted_key
  load_key seen index entry = do
    let id = text_or "" (get "key_id" entry)
    raise_if (id == "") (integrity (key_id_missing index))
    raise_if (elem id seen) (integrity (duplicate_key_id id))
    none_or "ed25519" (unsupported_algorithm id (get "algorithm" entry)) (get "algorithm" entry)
    purposes ← purposes_of id (get "purposes" entry)
    build_trusted_key id entry purposes

  unfoldable pub load_keys : List String → ℕ → List Value → Result Raised (List TrustedKey)
  unfolding load_key
  load_keys seen index [] = ok []
  load_keys seen index (obj entry ∷ rest) = do
    key ← load_key seen index entry
    keys ← load_keys (text_or "" (get "key_id" entry) ∷ seen) (suc index) rest
    ok (key ∷ keys)
  load_keys seen index (_ ∷ rest) = err (integrity (key_not_an_object index))

  abbrev keys_of : Option (List Value) → Result Raised (List Value)
  keys_of none = err (integrity keys_not_an_array)
  keys_of (some vs) = ok vs

  unfoldable pub load_trusted_key_registry : Fields → Result Raised KeyRegistry
  unfolding load_keys
  load_trusted_key_registry payload = do
    none_or "TrustedKeyRegistry.v0" (unexpected_registry_type (get "artifact_type" payload))
        (get "artifact_type" payload)
    entries ← keys_of (as_list (get "keys" payload))
    keys ← load_keys [] 0 entries
    ok (record { keys = keys; registry_id = note_of (get "registry_id" payload) })

  abbrev is_key : String → Value → Bool
  is_key id (str s) = s == id
  is_key id _ = false

  -- The entries with the id get the time; whether there was one.
  unfoldable pub revoke_entries : String → String → Items → Items × Bool
  revoke_entries id time nil = (nil, false)
  revoke_entries id time (cons (obj entry) rest) =
      let (updated, found) = revoke_entries id time rest in
      if is_key id (get "key_id" entry)
      then (cons (obj (put "revoked_at" (str time) entry)) updated, true)
      else (cons (obj entry) updated, found)
  revoke_entries id time (cons v rest) =
      let (updated, found) = revoke_entries id time rest in (cons v updated, found)

  abbrev resign : Fields → Fields
  resign payload =
      let body = without (signature_field ∷ []) payload in
      put signature_field (str (canonical_hash_legacy body)) body

  abbrev revoked_payload : Fields → String → Items × Bool → Result Raised Fields
  revoked_payload payload id (updated, true) = ok (resign (put "keys" (arr updated) payload))
  revoked_payload payload id (updated, false) = err (integrity (unknown_key_id id))

  -- revoke_key_in_registry, with the time already as text
  unfoldable pub revoke_key_in_registry : Fields → String → String → Result Raised Fields
  unfolding revoke_entries
  revoke_key_in_registry payload id time = elim (get "keys" payload) [
    | arr entries ↦ revoked_payload payload id (revoke_entries id time entries)
    | _ ↦ err (integrity keys_not_an_array)
  ]
