-- ===== src/Host.antt =====
-- What the program takes from outside src/: the interpreter's printing of compound values, hashlib,
-- and the JSON Schema validator with the schema files it reads.
use Prim.Native.String.{count}
use pcs_core.Prelude.{String, Bool, List, ◌≡◌}
use pcs_core.Prelude.Int.{ℤ}
use pcs_core.Json.{Value}

pub record Host : Type 0 where
  -- str() of a list or a dictionary
  pub repr : Value → String
  -- `n == x` of an int and a float, the float by its repr()
  pub int_equals_float : ℤ → String → Bool
  -- hashlib.sha256 of the UTF-8 bytes of a text, as hexdigest() prints it
  pub sha256 : String → String
  -- validate_schema(data, artifact_type)
  pub schema_errors : Value → String → List String
  -- documented: hexdigest() of SHA-256 has 64 characters
  pub count-sha256 : (s : String) → count (sha256 s) ≡ 64
