-- ===== src/ToolValidate/Readiness.antt =====
-- When a tool-use trace and its certificate are ready for release.
use pcs_core.Prelude.{
  ℕ, suc, String, List, [], ◌∷◌, ◌≡◌, ◌↔◌, refl, ap, Option, none, some, Bool, true, false, not,
  ◌==◌, if◌then◌else◌, when, All, arith, eq_iff,
}
use pcs_core.Json.{Value, null, bool, int, float, str, arr, obj, Fields, as_str, as_list}
use pcs_core.Json.Dict.{get}
use pcs_core.Json.Text.{str_of}
use pcs_core.Host.{Host}
use pcs_core.Runtime.Chain.Meaning.{nil_of_append, when-eq-nil}
use pcs_core.Runtime.Deny.{list_or_empty}
use pcs_core.Runtime.ToolUse.{authorization_decision}
use pcs_core.Runtime.ToolUse.Compiler.{denied_calls}
use pcs_core.ToolValidate.{
  Problem, authorized, release_certificate_status, is_text, differ, policy_hash_from_policy_id,
  policy_alignment, unauthorized, validate_tool_use_trace_certificate_alignment,
  validate_tool_use_release_readiness, not_authorized, not_released,
}

unless_nil {ℓ} : {A : Type ℓ} (b : Bool) (x : A) → when (not b) x ≡ [] → b ≡ true
unless_nil true x h = refl
unless_nil false x h = cc

text_of : (s : String) (v : Value) → is_text s v ≡ true → v ≡ str s
text_of s (str t) h = ap str ((eq_iff t s).0 h)
text_of s (_) h = cc

-- Both are texts and differ, or nothing is claimed.
abbrev pub Agree : Option String → Option String → Type 0
Agree (some a) (some b) = a ≡ b
Agree _ _ = Unit

Agree-of : (a b : Option String) → differ a b ≡ false → Agree a b
Agree-of (some a) (some b) h = ground (arith, eq_iff a b)
Agree-of none b h = tt
Agree-of (some a) none h = tt

differ_not : (a b : Option String) → Agree a b → differ a b ≡ false
differ_not (some a) (some b) h = ground (arith, eq_iff a b)
differ_not none b h = refl
differ_not (some a) none h = refl

-- An entry that is a dictionary states the authorization.
abbrev pub IsAuthorized : Value → Type 0
IsAuthorized (obj call) = get "authorization_status" call ≡ str authorized
IsAuthorized _ = Unit

module _ ⦃py : Host⦄ where
  IsAuthorized-sound :
      (index : ℕ) (calls : List Value) → unauthorized index calls ≡ [] → All IsAuthorized calls
  unfolding unauthorized
  IsAuthorized-sound index [] h = tt
  IsAuthorized-sound index (obj call ∷ rest) h =
      let (first, later) = nil_of_append _ _ h in
      (
        text_of authorized (get "authorization_status" call)
            (unless_nil _ (not_authorized index) first),
        IsAuthorized-sound (suc index) rest later,
      )
  IsAuthorized-sound index (_ ∷ rest) h = (tt, IsAuthorized-sound (suc index) rest h)

  IsAuthorized-complete :
      (index : ℕ) (calls : List Value) → All IsAuthorized calls → unauthorized index calls ≡ []
  unfolding unauthorized
  IsAuthorized-complete index [] h = refl
  IsAuthorized-complete index (obj call ∷ rest) h =
      rw (h.0) (IsAuthorized-complete (suc index) rest h.1)
  IsAuthorized-complete index (null ∷ rest) h = IsAuthorized-complete (suc index) rest h.1
  IsAuthorized-complete index (bool b ∷ rest) h = IsAuthorized-complete (suc index) rest h.1
  IsAuthorized-complete index (int n ∷ rest) h = IsAuthorized-complete (suc index) rest h.1
  IsAuthorized-complete index (float r ∷ rest) h = IsAuthorized-complete (suc index) rest h.1
  IsAuthorized-complete index (str s ∷ rest) h = IsAuthorized-complete (suc index) rest h.1
  IsAuthorized-complete index (arr vs ∷ rest) h = IsAuthorized-complete (suc index) rest h.1

  -- The policy hash of the certificate is that of the trace or, where the trace states none, the hash
  -- of its policy id.
  abbrev pub PolicyAgrees : Option String → Option String → Option String → Type 0
  PolicyAgrees (some stated) id (some certified) = certified ≡ stated
  PolicyAgrees none (some id) (some certified) = certified ≡ policy_hash_from_policy_id id
  PolicyAgrees _ _ _ = Unit

  same_of : (a b : String) (p : Problem) → when (not (a == b)) p ≡ [] → a ≡ b
  same_of a b p h = (eq_iff a b).0 (unless_nil (a == b) p h)

  when_same : (a b : String) (p : Problem) → a ≡ b → when (not (a == b)) p ≡ []
  when_same a b p h = rw ((eq_iff a b).1 h) refl

  policy_sound :
      (stated id certified : Option String)
      → policy_alignment stated id certified ≡ []
      → PolicyAgrees stated id certified
  policy_sound (some stated) id (some certified) h = same_of certified stated _ h
  policy_sound none (some id) (some certified) h =
      same_of certified (policy_hash_from_policy_id id) _ h
  policy_sound (some stated) id none h = tt
  policy_sound none (some id) none h = tt
  policy_sound none none certified h = tt

  policy_complete :
      (stated id certified : Option String)
      → PolicyAgrees stated id certified
      → policy_alignment stated id certified ≡ []
  policy_complete (some stated) id (some certified) h = when_same certified stated _ h
  policy_complete none (some id) (some certified) h =
      when_same certified (policy_hash_from_policy_id id) _ h
  policy_complete (some stated) id none h = refl
  policy_complete none (some id) none h = refl
  policy_complete none none certified h = refl

  pub record IsReady (trace certificate : Fields) : Type 0 where
    pub checked : get "status" certificate ≡ str release_certificate_status
    pub same_trace : Agree (as_str (get "trace_hash" trace)) (as_str (get "trace_hash" certificate))
    pub same_policy :
        PolicyAgrees
          (as_str (get "policy_hash" trace))
          (as_str (get "policy_id" trace))
          (as_str (get "policy_hash" certificate))
    pub all_authorized : All IsAuthorized (list_or_empty (as_list (get "tool_calls" trace)))

  IsReady-sound :
      (trace certificate : Fields)
      → validate_tool_use_release_readiness trace certificate ≡ []
      → IsReady trace certificate
  unfolding validate_tool_use_release_readiness validate_tool_use_trace_certificate_alignment
  IsReady-sound trace certificate h =
      let (status, alignment) =
        nil_of_append
          (when (not (is_text release_certificate_status (get "status" certificate))) not_released)
          _ h in
      let (hashes, others) =
        nil_of_append
          (when (differ (as_str (get "trace_hash" trace)) (as_str (get "trace_hash" certificate)))
            _)
          _ alignment in
      let (policy, calls) =
        nil_of_append
          (policy_alignment (as_str (get "policy_hash" trace)) (as_str (get "policy_id" trace))
            (as_str (get "policy_hash" certificate)))
          _ others in
      let released = unless_nil _ not_released status in
      record {
        checked = text_of release_certificate_status (get "status" certificate) released;
        same_trace = Agree-of _ _ (when-eq-nil _ _ hashes);
        same_policy = policy_sound _ _ _ policy;
        all_authorized = IsAuthorized-sound 0 _ (
            issued (is_text release_certificate_status (get "status" certificate)) _ released
              calls);
      }
    where
      issued : (b : Bool) (xs : List Problem) → b ≡ true → (if b then xs else []) ≡ [] → xs ≡ []
      issued true xs e k = k
      issued false xs e k = cc

  IsReady-complete :
      (trace certificate : Fields)
      → IsReady trace certificate
      → validate_tool_use_release_readiness trace certificate ≡ []
  unfolding validate_tool_use_release_readiness validate_tool_use_trace_certificate_alignment
  IsReady-complete trace certificate r =
      rw
        (
          r.checked,
          differ_not _ _ r.same_trace,
          policy_complete _ _ _ r.same_policy,
          IsAuthorized-complete 0 (list_or_empty (as_list (get "tool_calls" trace)))
              r.all_authorized,
        )
        refl

  -- A trace and a certificate are ready for release without a message exactly when the certificate is
  -- CertificateChecked, the trace hashes and the policies that both state agree, and each tool call
  -- that is a dictionary is authorized.
  pub release_readiness_iff :
      (trace certificate : Fields)
      → (validate_tool_use_release_readiness trace certificate ≡ []) ↔ IsReady trace certificate
  release_readiness_iff trace certificate =
      (IsReady-sound trace certificate, IsReady-complete trace certificate)

  none_denied : (calls : List Value) → All IsAuthorized calls → denied_calls calls ≡ []
  unfolding denied_calls authorization_decision str_of
  none_denied [] h = refl
  none_denied (obj call ∷ rest) h = rw (h.0, none_denied rest h.1) refl
  none_denied (null ∷ rest) h = none_denied rest h.1
  none_denied (bool b ∷ rest) h = none_denied rest h.1
  none_denied (int n ∷ rest) h = none_denied rest h.1
  none_denied (float r ∷ rest) h = none_denied rest h.1
  none_denied (str s ∷ rest) h = none_denied rest h.1
  none_denied (arr vs ∷ rest) h = none_denied rest h.1

  -- A trace that is ready for release has no tool call that the compiler to PF-Core traces counts as
  -- denied.
  pub readiness-denied_calls :
      (trace certificate : Fields)
      → validate_tool_use_release_readiness trace certificate ≡ []
      → denied_calls (list_or_empty (as_list (get "tool_calls" trace))) ≡ []
  readiness-denied_calls trace certificate h =
      none_denied _ (IsReady-sound trace certificate h).all_authorized
