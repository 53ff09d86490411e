-- ===== src/Runtime.antt =====
-- python/pcs_core/pf_core_runtime.py, the parts that the other modules of the runtime share: the
-- exceptions and the normal form of a hash.
pub mod Glob
pub mod Principal
pub mod Action
pub mod Tenant
pub mod Deny
pub mod Event
pub mod Compile
pub mod ToolUse
pub mod Chain
pub mod Sequence
use Prim.Native.Char.{code}
use Prim.Native.String.{◌++◌, count}
use pcs_core.Prelude.{
  String, Bool, true, false, ◌&&◌, ◌||◌, starts_with, eqb, leb, if◌then◌else◌, Result, ok, err,
}
use pcs_core.Hash.{placeholder_digest}

abbrev pub genesis_hash : String
genesis_hash = placeholder_digest

-- The subclasses of PFCoreRuntimeError with the values that tell them apart, the path last, and the
-- other codes. `key_error` is a KeyError, `type_error` a TypeError or AttributeError, and
-- `invalid_schema` the ValidationError of _require_schema_valid.
pub data RuntimeError : Type 0 where
  unknown_capability : String → String → RuntimeError
  unknown_effect : String → String → RuntimeError
  missing_principal : String → String → RuntimeError
  ambiguous_mapping : String → String → RuntimeError
  handoff_authority_expansion : String → String → RuntimeError
  claim_class_overclaim : String → RuntimeError
  capability_effect_mismatch : String → String → String → RuntimeError
  dropped_denied_event : String → String → RuntimeError
  resource_scope_violation : String → String → String → RuntimeError
  invalid_hash : String → RuntimeError
  invalid_action : String → RuntimeError
  invalid_decision : String → String → RuntimeError
  invalid_observation : String → RuntimeError
  invalid_trace : String → String → RuntimeError
  invalid_schema : String → RuntimeError
  key_error : String → RuntimeError
  type_error : RuntimeError

-- `all(c in "0123456789abcdef" for c in value)`
unfoldable pub is_lower_hex : String → Bool
is_lower_hex String.[] = true
is_lower_hex (String.◌∷◌ c s) =
    let n = code c in (leb b'0' n && leb n b'9' || leb b'a' n && leb n b'f') && is_lower_hex s

unfoldable pub normalize_hash : String → Result RuntimeError String
normalize_hash v =
    if starts_with v "sha256:" && eqb (count v) 71
    then ok v
    else if eqb (count v) 64 && is_lower_hex v
    then ok ("sha256:" ++ v)
    else err (invalid_hash v)
