-- ===== src/Examples/Modes.antt =====
-- Witnesses of the theorems on the table of certificate modes.
use pcs_core.Prelude.{String, ◌≡◌, ◌↔◌, refl, true, elem, All, ok}
use pcs_core.Json.{Value, str, bool, obj, arr, Items, nil, cons, Fields, end, field}
use pcs_core.Modes.{
  load_certificate_mode_status, iter_mode_status_entries, get_certificate_mode_status,
  public_issuance_modes,
}
use pcs_core.Modes.Issuance.{MayIssue}
use pcs_core.Modes.Table.{IsListed, load-IsListed}
use pcs_core.Modes.Public.{public_issuance_modes_iff}
use pcs_core.Examples.{demo}

abbrev mode_entry : String → String → Value
mode_entry mode status = obj (
    field "mode" (str mode) (
      field "status" (str status)
        (field "allowed_issuance" (bool true) (field "description" (str "A mode.") end))))

abbrev table : Fields
table =
    field "modes"
      (arr (
        cons (mode_entry "tool_use_checked" "release_candidate")
          (cons (mode_entry "trial" "experimental") nil)))
      end

loaded : load_certificate_mode_status ⦃py = demo⦄ (obj table) ≡ ok table
unfolding load_certificate_mode_status pcs_core.Json.Dict.get pcs_core.Json.Text.str_of
    pcs_core.Json.Text.is_blank
loaded = refl

load_example :
    All
      (IsListed ⦃py = demo⦄ (get_certificate_mode_status ⦃py = demo⦄ table))
      (iter_mode_status_entries ⦃py = demo⦄ table)
load_example = load-IsListed ⦃py = demo⦄ (obj table) table loaded

public_example :
    (elem "trial" (public_issuance_modes ⦃py = demo⦄ table true) ≡ true)
    ↔ MayIssue ⦃py = demo⦄ true (get_certificate_mode_status ⦃py = demo⦄ table "trial")
public_example = public_issuance_modes_iff ⦃py = demo⦄ table true "trial"
