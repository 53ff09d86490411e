-- ===== src/Examples.antt =====
-- Test data for the development: a host and an observation, with witnesses of the theorems in the
-- modules below.
mod Hashes
mod Statuses
mod Runtimes
mod Traces
mod ToolUses
mod Orders
mod Contracts
mod Modes
mod Replays
mod Integrities
mod Registries
use pcs_core.Prelude.{String, false, refl, List, [], ◌∷◌, Result, ok, err}
use pcs_core.Prelude.Int.{ℤ, pos}
use pcs_core.Json.{Value, str, int, arr, obj, Items, nil, cons, Fields, end, field, texts}
use pcs_core.Host.{Host}
use pcs_core.Hash.{zeros}

-- Compound values print as nothing, no int equals a float, every digest is zero, and every artifact fits its schema.
abbrev pub demo : Host
demo = record {
  repr = λ v. "";
  int_equals_float = λ n r. false;
  sha256 = λ s. zeros;
  schema_errors = λ v kind. [];
  count-sha256 = λ s. refl;
}

abbrev pub no_fields : Fields
no_fields = end

abbrev pub ok_or {ℓ κ} : {E : Type ℓ} {A : Type κ} → A → Result E A → A
ok_or a (ok b) = b
ok_or a (err e) = a

abbrev pub resource : String → Value
resource uri = obj (field "uri" (str uri) (field "tenant" (str "lab") end))

abbrev pub read_capability : Fields
read_capability =
    field "capability_id" (str "cap:file-read")
      (field "effect_kind" (str "file.read") (field "resource_pattern" (str "/data/*") end))

abbrev pub read_action : Fields
read_action = field "action_id" (str "act-1") (
    field "tool_name" (str "filesystem.read") (
      field "capability" (obj read_capability) (
        field "effects" (arr (cons (obj (field "effect_kind" (str "file.read") end)) nil))
          (field "reads" (arr (cons (resource "/data/a") nil)) (field "writes" (arr nil) end)))))

abbrev pub reader : Fields
reader = field "principal_id" (str "p-1") (
    field "tenant" (str "lab")
      (field "roles" (arr (texts ("file_reader" ∷ []))) (field "capabilities" (arr nil) end)))

abbrev pub observation : String → String → Fields
observation id decision = field "trace_id" (str "t-1") (
    field "event_id" (str id) (
      field "sequence" (int (pos 0)) (
        field "observed_at" (str "2024-01-01") (
          field "principal" (obj reader) (
            field "action" (obj read_action) (
              field "decision" (str decision)
                (field "source_repo" (str "repo") (field "source_commit" (str "c0") end))))))))
