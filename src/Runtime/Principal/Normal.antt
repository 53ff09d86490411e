-- ===== src/Runtime/Principal/Normal.antt =====
-- The normal form of a principal is explicit, and a handoff delegates no more than its source holds.
use pcs_core.Prelude.{
  ℕ, suc, String, List, [], ◌∷◌, ◌≡◌, refl, ap, ◌↔◌, ◌⊎◌, map, All, Option, none, some, true, false,
  not, ◌&&◌, ◌==◌, elem, arith, eq_iff, Result, ok, err, ◌>>◌, bind_ok, raise_if,
}
use pcs_core.Json.{Value, arr, obj, Items, Fields, texts, to_list}
use pcs_core.Json.Dict.{lookup, get, put}
use pcs_core.Json.Text.{str_of, text_or}
use pcs_core.Host.{Host}
use pcs_core.Runtime.{RuntimeError, missing_principal, type_error}
use pcs_core.Runtime.Principal.{
  texts_of_key, expand_ids, expand_principal_capabilities, principal_capabilities_explicit,
  principal_record, normalize_principal, validate_principal, check_delegated, blank_text,
  validate_handoff_authority,
}
use pcs_core.Runtime.Principal.Expansion.{expand_ids_again}

module _ ⦃py : Host⦄ where
  str_of-texts : (ss : List String) → map str_of (to_list (texts ss)) ≡ ss
  unfolding str_of
  str_of-texts [] = refl
  str_of-texts (s ∷ ss) = ap (λ l. s ∷ l) (str_of-texts ss)

  module _ (id kind tenant : String) (roles caps : List String) where
    roles_of_record : texts_of_key "roles" (principal_record id kind tenant roles caps) ≡ ok roles
    unfolding texts_of_key lookup
    roles_of_record = ap ok (str_of-texts roles)

    caps_of_record :
        texts_of_key "capabilities" (principal_record id kind tenant roles caps) ≡ ok caps
    unfolding texts_of_key lookup
    caps_of_record = ap ok (str_of-texts caps)

    expand-record :
        expand_principal_capabilities (principal_record id kind tenant roles caps)
        ≡ ok (expand_ids roles caps)
    unfolding expand_principal_capabilities
    expand-record = rw (roles_of_record, caps_of_record) refl

    put-record :
        (ids : List String)
        → put "capabilities" (arr (texts ids)) (principal_record id kind tenant roles caps)
          ≡ principal_record id kind tenant roles ids
    unfolding put
    put-record ids = refl

  record_explicit :
      (id kind tenant : String) (roles caps : List String)
      → principal_capabilities_explicit
          (principal_record id kind tenant roles (expand_ids roles caps))
        ≡ ok true
  unfolding principal_capabilities_explicit
  record_explicit id kind tenant roles caps =
      rw
        (
          caps_of_record id kind tenant roles (expand_ids roles caps),
          roles_of_record id kind tenant roles (expand_ids roles caps),
        )
        (ap ok (expand_ids_again roles caps))

  -- What a normalised principal looks like.
  pub record NormalPrincipal (n : Fields) : Type 0 where
    pub id : String
    pub kind : String
    pub tenant : String
    pub roles : List String
    pub caps : List String
    pub shape : n ≡ principal_record id kind tenant roles (expand_ids roles caps)

  normalize_principal-Normal :
      (path id : String) (p n : Fields) → normalize_principal path id p ≡ ok n → NormalPrincipal n
  unfolding normalize_principal
  normalize_principal-Normal path id p n h =
      let kind = text_or "agent" (get "principal_kind" p) in
      let tenant = text_or "" (get "tenant" p) in
      let (roles, _, h₁) = bind_ok (texts_of_key "roles" p) _ h in
      let (caps, _, h₂) = bind_ok (texts_of_key "capabilities" p) _ h₁ in
      let found : ok (
            put "capabilities" (arr (texts (expand_ids roles caps)))
              (principal_record id kind tenant roles caps))
          ≡ ok n =
        rw (expand-record id kind tenant roles caps) at h₂ in
      record {
        id = id;
        kind = kind;
        tenant = tenant;
        roles = roles;
        caps = caps;
        shape = cc (found, put-record id kind tenant roles caps (expand_ids roles caps));
      }

  pub validate_principal-Normal :
      (path : String) (v : Value) (n : Fields)
      → validate_principal path v ≡ ok n
      → NormalPrincipal n
  unfolding validate_principal
  validate_principal-Normal path (obj p) n h = known (blank_text (get "principal_id" p)) h
    where
      known :
          (o : Option String)
          → elim o [
            | none ↦ err (missing_principal "principal_id required" path)
            | some id ↦ normalize_principal path id p
          ]
            ≡ ok n
          → NormalPrincipal n
      known none e = cc
      known (some id) e = normalize_principal-Normal path id p n e
  validate_principal-Normal path _ n h = cc

  pub validate_principal-explicit :
      (path : String) (v : Value) (n : Fields)
      → validate_principal path v ≡ ok n
      → principal_capabilities_explicit n ≡ ok true
  validate_principal-explicit path v n h =
      let form = validate_principal-Normal path v n h in
      rw form.shape (record_explicit form.id form.kind form.tenant form.roles form.caps)

  -- A delegated capability is nameless, or one of the allowed ids.
  abbrev pub IsWithin : List String → Value → Type 0
  IsWithin allowed (obj cap) =
      (text_or "" (get "capability_id" cap) ≡ "")
      ⊎ (elem (text_or "" (get "capability_id" cap)) allowed ≡ true)
  IsWithin allowed _ = Unit

  head_within :
      (id : String) (allowed : List String) (e : RuntimeError) (k : Result RuntimeError (Unit {0}))
      → (raise_if (not (id == "") && not (elem id allowed)) e >> k) ≡ ok tt
      → ((id ≡ "") ⊎ (elem id allowed ≡ true)) × (k ≡ ok tt)
  head_within id allowed e k h = ground (arith, eq_iff id "")

  within_head :
      (id : String) (allowed : List String) (e : RuntimeError)
      → (id ≡ "") ⊎ (elem id allowed ≡ true)
      → (not (id == "") && not (elem id allowed)) ≡ false
  within_head id allowed e h = ground (arith, eq_iff id "")

  check_delegated_sound :
      (allowed : List String) (i : ℕ) (caps : List Value)
      → check_delegated allowed i caps ≡ ok tt
      → All (IsWithin allowed) caps
  unfolding check_delegated
  check_delegated_sound allowed i [] h = tt
  check_delegated_sound allowed i (obj cap ∷ rest) h =
      let (first, more) = head_within _ allowed _ (check_delegated allowed (suc i) rest) h in
      (first, check_delegated_sound allowed (suc i) rest more)
  check_delegated_sound allowed i (_ ∷ rest) h = (tt, check_delegated_sound allowed (suc i) rest h)

  check_delegated_complete :
      (allowed : List String) (i : ℕ) (caps : List Value)
      → All (IsWithin allowed) caps
      → check_delegated allowed i caps ≡ ok tt
  unfolding check_delegated
  check_delegated_complete allowed i [] h = refl
  check_delegated_complete allowed i (obj cap ∷ rest) h =
      rw (within_head (text_or "" (get "capability_id" cap)) allowed type_error h.0)
        (check_delegated_complete allowed (suc i) rest h.1)
  check_delegated_complete allowed i (_ ∷ rest) h =
      check_delegated_complete allowed (suc i) rest h.1

  -- A handoff whose source principal is a dictionary that expands to a list of ids, and whose
  -- delegated capabilities are a list, is accepted exactly when each delegated capability with a
  -- name is among these ids.
  pub validate_handoff_authority_iff :
      (h src : Fields) (caps : Items) (allowed : List String)
      → get "from_principal" h ≡ obj src
      → get "delegated_capabilities" h ≡ arr caps
      → expand_principal_capabilities src ≡ ok allowed
      → (validate_handoff_authority h ≡ ok tt) ↔ All (IsWithin allowed) (to_list caps)
  unfolding validate_handoff_authority
  validate_handoff_authority_iff h src caps allowed from delegated held =
      rw (from, delegated)
        (rw held (
          check_delegated_sound allowed 0 (to_list caps),
          check_delegated_complete allowed 0 (to_list caps),
        ))
