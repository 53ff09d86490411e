-- ===== src/Lib.antt =====
-- PCS core: the PF-Core runtime of the package python/pcs_core, which turns observations of agents
-- into hash-chained traces and checks such traces, with the hashing and the status policy below it.
--
-- The parts and the files that model them:
--   Prelude     names, tests, lists, results, the order of texts and Python's integers
--   Json        JSON values. A dictionary is the list of its entries in insertion order; a float is
--               the text that repr() prints for it. Json.Dict has d.get, d[k] = v and d.pop, Json.Text
--               the printing by json.dumps (compact) and str(), Json.Equal the operator ==
--   Host        what the package takes from outside: SHA-256, str() of compound values, == of an int
--               and a float, and the JSON Schema validator. Every model that uses them has the
--               instance argument py : Host
--   Hash        python/pcs_core/hash.py. An exception is the err of a Result
--   Status      python/pcs_core/status.py and python/pcs_core/status_policy.py
--   Catalog     python/pcs_core/pf_core_catalog.py
--   Runtime     python/pcs_core/pf_core_runtime.py: Glob (resource patterns), Principal (roles,
--               capabilities, handoffs), Action (capability, effects, scope, claim classes), Tenant
--               (the checks that return violations), Deny (denied events, observed effects), Event
--               (one observation), Compile (a list of observations), ToolUse (tool calls; its
--               Handoffs, Compiler and Kept have the rest), Chain (the hash chain), Sequence (the
--               order of events)
--   Contract    python/pcs_core/pf_core_contract_semantics.py (the layers of contract fields) and
--               python/pcs_core/pf_core_contract.py (Event: the evaluation on an event and a trace;
--               Meaning: what it is to satisfy a contract)
--   Modes       python/pcs_core/pf_core_certificate_mode_status.py: the table of certificate modes
--               and the policy of issuance, of the parsed content of the table's file
--   ToolValidate python/pcs_core/tool_use_validate.py: the checks of tool-use traces and certificates
--               and (Profile) of workflow profiles
--   Integrity   python/pcs_core/artifact_integrity.py: keys and time, Registry (loading, revocation),
--               Envelope (signing and verification), Semantics. Ed25519, base64 and datetime are the
--               instance argument nacl : Crypto; a time is an instant in microseconds
--   Registry    python/pcs_core/registry_data.py: the rule on assumptions of a certificate; the table
--               of entries is an argument. Entries, Listed, Considered, Skipped and References say
--               what its parts decide, Assumptions the whole rule
--   Replay      python/pcs_core/pf_core_replay.py: claim ranks and recomputed hashes, Compare (the
--               differences of two traces), Run (the replay), Certificate (certificate, exit code)
--   Examples    a host, test data and witnesses of the results
--
-- Interaction: Runtime.Compile sorts observations, compiles each with Runtime.Event, which validates
-- its principal and action, links the events by Hash and seals the trace. Runtime.Chain recomputes
-- all hashes of a trace; Replay recomputes and compares them. Contract.Event asks Runtime.Principal
-- for the capabilities of a principal and Runtime.Tenant for ownership. Integrity.Envelope signs the
-- domain-separated message of Hash. Validators return lists of errors; an error is a value that
-- carries what its message prints. A function that raises returns a Result whose err is the exception.
--
-- Loops are structural recursion. The pattern matcher keeps the fuel of the source, the two lengths
-- and one more, which its theorem shows to be enough. Printing a number n uses n + 1 steps.
--
-- Not modelled: the bytes of the UTF-8 encoding (a digest is a function of the text), deep copies
-- (values are immutable), object identity (Python takes one nan object in two containers for equal
-- to itself), the ValueError of VerifyKey for a key that is not 32 bytes long, the overflow of a
-- datetime after the year 9999, the texts of error messages, and the modules of the package that
-- read and write files or run other tools. Where a modelled function reads a file, its parsed
-- content is an argument.
pub mod Prelude
pub mod Json
pub mod Host
pub mod Hash
pub mod Status
pub mod Catalog
pub mod Runtime
pub mod Contract
pub mod Modes
pub mod ToolValidate
pub mod Integrity
pub mod Registry
pub mod Replay
pub mod Examples
