-- ===== src/Replay/Run.antt =====
-- replay_trace and run_replay_trace of python/pcs_core/pf_core_replay.py, of the contents of the files.
use pcs_core.Prelude.{
  String, List, [], ◌∷◌, Option, none, some, Bool, true, false, ◌&&◌, ◌==◌, if◌then◌else◌, Result,
  ok, err, ◌>>=◌,
}
use pcs_core.Json.{obj, Fields}
use pcs_core.Json.Dict.{get}
use pcs_core.Json.Text.{text_or}
use pcs_core.Host.{Host}
use pcs_core.Runtime.{RuntimeError}
use pcs_core.Runtime.Event.{compile_runtime_observation_to_event, require_text}
use pcs_core.Runtime.Compile.{trace_record, seal_trace}
use pcs_core.Runtime.ToolUse.Compiler.{compile_tool_use_trace_to_pfcore_trace}
use pcs_core.Replay.{recompute_pfcore_trace_hashes}
use pcs_core.Replay.Compare.{ReplayDiff, compare_hash_chain, compare_traces}

-- What is raised while the source is compiled.
pub data SourceError : Type 0 where
  raised : RuntimeError → SourceError
  unsupported_source : Option String → SourceError

pub data ReplayError : Type 0 where
  trace_schema_invalid : List String → ReplayError
  replay_failed : SourceError → ReplayError
  certificate_schema_invalid : List String → ReplayError

pub record ReplayResult : Type 0 where
  pub matches : Bool
  pub original_trace_hash : String
  pub recomputed_trace_hash : String
  pub diffs : List ReplayDiff
  pub error : Option ReplayError
  pub recomputed_trace : Option Fields

abbrev pub is_nil_diffs : List ReplayDiff → Bool
is_nil_diffs [] = true
is_nil_diffs (d ∷ ds) = false

module _ ⦃py : Host⦄ where
  unfoldable pub compile_observation_to_pfcore_trace : Fields → Result RuntimeError Fields
  compile_observation_to_pfcore_trace obs = do
    event ← compile_runtime_observation_to_event obs
    trace_id ← require_text "trace_id" obs
    repo ← require_text "source_repo" obs
    commit ← require_text "source_commit" obs
    ok (
        seal_trace (
          trace_record (record {
            trace_id = trace_id;
            workflow_id = text_or "observation.single" (get "runtime_ref" obs);
            events = event ∷ [];
            source_repo = repo;
            source_commit = commit;
          })))

  abbrev lifted : Result RuntimeError Fields → Result SourceError Fields
  lifted (ok trace) = ok trace
  lifted (err e) = err (raised e)

  -- The kind is what detect_artifact_type says of the source.
  unfoldable pub compile_source_to_pfcore_trace : Option String → Fields → Result SourceError Fields
  compile_source_to_pfcore_trace none source = err (unsupported_source none)
  compile_source_to_pfcore_trace (some kind) source =
      if kind == "ToolUseTrace.v0"
      then lifted (compile_tool_use_trace_to_pfcore_trace source)
      else if kind == "PFCoreRuntimeObservation.v0"
      then lifted (compile_observation_to_pfcore_trace source)
      else err (unsupported_source (some kind))

  abbrev failure : Fields → ReplayError → ReplayResult
  failure original e = record {
    matches = false;
    original_trace_hash = text_or "" (get "trace_hash" original);
    recomputed_trace_hash = "";
    diffs = [];
    error = some e;
    recomputed_trace = none;
  }

  abbrev pub compared : Fields → Fields → List ReplayDiff → ReplayResult
  compared original recomputed diffs =
      let stored = text_or "" (get "trace_hash" original) in
      let computed = text_or "" (get "trace_hash" recomputed) in
      record {
        matches = is_nil_diffs diffs && stored == computed;
        original_trace_hash = stored;
        recomputed_trace_hash = computed;
        diffs = diffs;
        error = none;
        recomputed_trace = some recomputed;
      }

  abbrev from_source : Fields → Result SourceError Fields → ReplayResult
  from_source original (err e) = failure original (replay_failed e)
  from_source original (ok trace) = compared original trace (compare_traces original trace)

  abbrev pub replay_valid : Fields → Option (Option String × Fields) → ReplayResult
  replay_valid original none =
      let trace = recompute_pfcore_trace_hashes original in
      compared original trace (compare_hash_chain original trace)
  replay_valid original (some (kind, source)) =
      from_source original (compile_source_to_pfcore_trace kind source)

  abbrev pub after_schema : Fields → Option (Option String × Fields) → List String → ReplayResult
  after_schema original source [] = replay_valid original source
  after_schema original source (e ∷ es) = failure original (trace_schema_invalid (e ∷ es))

  -- The source comes with the kind that is detected for it.
  unfoldable pub replay_trace : Fields → Option (Option String × Fields) → ReplayResult
  replay_trace original source =
      after_schema original source (py.schema_errors (obj original) "PFCoreTrace.v0")
