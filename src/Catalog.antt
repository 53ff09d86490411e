-- ===== src/Catalog.antt =====
-- python/pcs_core/pf_core_catalog.py: effect kinds, capabilities, roles and tool names.
use pcs_core.Prelude.{String, List, [], ◌∷◌, Option, none, some, ◌==◌, ◌&&◌, if◌then◌else◌}

pub record Capability : Type 0 where
  pub capability_id : String
  pub effect_kind : String
  pub resource_pattern : String

abbrev pub effect_kinds : List String
effect_kinds =
    "file.read" ∷ "file.write" ∷ "network.egress" ∷ "email.send" ∷ "handoff.delegate" ∷ "mcp.invoke"
    ∷ "lab.release" ∷ []

abbrev capability : String → String → String → Capability
capability id kind pattern = record {
  capability_id = id;
  effect_kind = kind;
  resource_pattern = pattern;
}

-- The values of CAPABILITY_CATALOG; each stands under its own capability_id.
abbrev pub capability_catalog : List Capability
capability_catalog =
    capability "cap:file-read" "file.read" "/data/*"
    ∷ capability "cap:file-write" "file.write" "/data/*"
    ∷ capability "cap:network" "network.egress" "*"
    ∷ capability "cap:email-send" "email.send" "mailto:*"
    ∷ capability "cap:handoff" "handoff.delegate" "agent:*"
    ∷ capability "cap:mcp-invoke" "mcp.invoke" "mcp:*"
    ∷ capability "cap:lab-release" "lab.release" "lab:*"
    ∷ []

abbrev find_capability : String → List Capability → Option Capability
find_capability id [] = none
find_capability id (c ∷ cs) = if c.capability_id == id then some c else find_capability id cs

unfoldable pub lookup_capability : String → Option Capability
lookup_capability id = find_capability id capability_catalog

abbrev pub role_capability_map : List (String × List String)
role_capability_map =
    ("file_reader", "cap:file-read" ∷ [])
    ∷ ("file_admin", "cap:file-read" ∷ "cap:file-write" ∷ [])
    ∷ ("network_user", "cap:network" ∷ [])
    ∷ ("email_user", "cap:email-send" ∷ [])
    ∷ ("handoff_delegate", "cap:handoff" ∷ [])
    ∷ ("mcp_user", "cap:mcp-invoke" ∷ [])
    ∷ ("lab_operator", "cap:lab-release" ∷ [])
    ∷ ("agent", "cap:file-read" ∷ "cap:email-send" ∷ "cap:handoff" ∷ "cap:mcp-invoke" ∷ [])
    ∷ []

abbrev find_role : String → List (String × List String) → Option (List String)
find_role role [] = none
find_role role ((r, caps) ∷ rows) = if r == role then some caps else find_role role rows

unfoldable pub role_capabilities : String → Option (List String)
role_capabilities role = find_role role role_capability_map

-- TOOL_NAME_MAP: a row for each pair of a tool name and a category.
abbrev tool_name_map : List (String × String × Capability)
tool_name_map =
    ("filesystem.read", "filesystem", capability "cap:file-read" "file.read" "/data/*")
    ∷ ("filesystem.write", "filesystem", capability "cap:file-write" "file.write" "/data/*")
    ∷ ("network.request", "network", capability "cap:network" "network.egress" "*")
    ∷ ("email.send", "email", capability "cap:email-send" "email.send" "mailto:*")
    ∷ ("handoff.delegate", "handoff", capability "cap:handoff" "handoff.delegate" "agent:*")
    ∷ ("mcp.invoke", "mcp", capability "cap:mcp-invoke" "mcp.invoke" "mcp:*")
    ∷ ("lab.release", "lab", capability "cap:lab-release" "lab.release" "lab:*")
    ∷ []

abbrev find_tool : String → String → List (String × String × Capability) → Option Capability
find_tool name category [] = none
find_tool name category ((n, c, cap) ∷ rows) =
    if n == name && c == category then some cap else find_tool name category rows

unfoldable pub tool_capability : String → String → Option Capability
tool_capability name category = find_tool name category tool_name_map
