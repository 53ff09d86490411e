-- ===== src/Registry/Skipped.antt =====
-- When a certificate skips no check of the registry, described without the lists that registry_data.py
-- builds for it.
use pcs_core.Prelude.{
  String, List, [], ◌∷◌, ◌≡◌, ◌↔◌, ◌⊎◌, inl, inr, refl, sym, subst, Bool-cases, Option, none, some,
  Bool, true, false, not, ◌==◌, eq_iff, OneOf, when,
}
use pcs_core.Json.{Value, obj, Fields, as_list, as_dict, truthy}
use pcs_core.Json.Dict.{get}
use pcs_core.Json.Text.{text_or}
use pcs_core.Host.{Host}
use pcs_core.Runtime.Chain.Meaning.{nil_of_append, when-eq-nil}
use pcs_core.Registry.{
  was_built, is_skipped, skipped_among, infer_skipped_registry_checks, skipped_checks,
  artifact_type_of, skipped_in,
}
use pcs_core.Registry.Entries.{IsContext, context_or-IsContext, context_or-eq}
use pcs_core.Registry.Considered.{IsConsidered, IsConsidered-sound, IsConsidered-complete}

not-eq-false : (b : Bool) → not b ≡ false → b ≡ true
not-eq-false true h = refl
not-eq-false false h = cc

module _ ⦃py : Host⦄ where
  -- The certificate says that the check was done.
  pub record IsDone (certificate check : Fields) : Type 0 where
    pub proved :
        text_or "" (get "check_id" check) ≡ "lean_kernel_proof"
        → truthy (get "lean_proof_checked" certificate) ≡ true
    pub built :
        text_or "" (get "check_id" check) ≡ "lean_library_build"
        → (build : Fields) × (get "lean_build_status" certificate ≡ obj build)
          × (truthy (get "ok" build) ≡ true)

  built_sound :
      (certificate : Fields) (v : Value)
      → get "lean_build_status" certificate ≡ v
      → was_built (as_dict v) ≡ true
      → (build : Fields) × (get "lean_build_status" certificate ≡ obj build)
        × (truthy (get "ok" build) ≡ true)
  built_sound certificate (obj build) e h = (build, e, h)
  built_sound certificate _ e h = cc

  IsDone-sound :
      (certificate check : Fields)
      → is_skipped certificate (text_or "" (get "check_id" check)) ≡ false
      → IsDone certificate check
  IsDone-sound certificate check h = record {
    proved = λ p. not-eq-false _ (subst (λ id. is_skipped certificate id ≡ false) p h);
    built = λ p.
        built_sound certificate _ refl
          (not-eq-false _ (subst (λ id. is_skipped certificate id ≡ false) p h));
  }

  not_skipped :
      (certificate : Fields) (id : String)
      → (id ≡ "lean_kernel_proof" → truthy (get "lean_proof_checked" certificate) ≡ true)
      → (id ≡ "lean_library_build"
          → was_built (as_dict (get "lean_build_status" certificate)) ≡ true)
      → is_skipped certificate id ≡ false
  not_skipped certificate id proved built = elim (Bool-cases (id == "lean_kernel_proof")) [
    | inl e ↦ rw (e, proved ((eq_iff id _).0 e)) refl
    | inr e ↦ elim (Bool-cases (id == "lean_library_build")) [
      | inl f ↦ rw (e, f, built ((eq_iff id _).0 f)) refl
      | inr f ↦ rw (e, f) refl
    ]
  ]

  IsDone-complete :
      (certificate check : Fields)
      → IsDone certificate check
      → is_skipped certificate (text_or "" (get "check_id" check)) ≡ false
  IsDone-complete certificate check d =
      not_skipped certificate (text_or "" (get "check_id" check)) d.proved
        (λ p. let (build, e, t) = d.built p in rw e t)

  all-IsDone :
      (certificate : Fields) (checks : List Fields)
      → skipped_among certificate checks ≡ []
      → (check : Fields) → OneOf check checks
      → IsDone certificate check
  all-IsDone certificate [] h check m = absurd m
  all-IsDone certificate (c ∷ cs) h check (inl e) =
      let (first, _) =
        nil_of_append (when (is_skipped certificate (text_or "" (get "check_id" c))) _) _ h in
      subst (λ x. IsDone certificate x) (sym e) (IsDone-sound certificate c (when-eq-nil _ _ first))
  all-IsDone certificate (c ∷ cs) h check (inr m) =
      let (_, rest) =
        nil_of_append (when (is_skipped certificate (text_or "" (get "check_id" c))) _) _ h in
      all-IsDone certificate cs rest check m

  none_skipped :
      (certificate : Fields) (checks : List Fields)
      → ((check : Fields) → OneOf check checks → IsDone certificate check)
      → skipped_among certificate checks ≡ []
  none_skipped certificate [] h = refl
  none_skipped certificate (c ∷ cs) h =
      rw (IsDone-complete certificate c (h c (inl refl)))
        (none_skipped certificate cs (λ check m. h check (inr m)))

  -- The certificate skips no check: the context lists the skipped checks and lists none, or it has no
  -- such list and the certificate says of every check that is looked at that it was done.
  pub record SkipsNothing (entries : List (String × Fields)) (certificate : Fields)
      (given : Option Fields) : Type 0 where
    pub context : Fields
    pub used :
        IsContext entries
          (text_or "PFCoreCertificate.v0" (get "artifact_type" certificate))
          given
          context
    pub settled :
        (as_list (get "skipped_checks" context) ≡ some [])
        ⊎ ((as_list (get "skipped_checks" context) ≡ none)
            × ((check : Fields)
                → IsConsidered entries
                    (text_or "PFCoreCertificate.v0" (get "artifact_type" certificate))
                    context
                    check
                → IsDone certificate check))

  settled_sound :
      (entries : List (String × Fields)) (certificate context : Fields) (o : Option (List Value))
      → as_list (get "skipped_checks" context) ≡ o
      → skipped_in entries certificate context o ≡ []
      → (as_list (get "skipped_checks" context) ≡ some [])
        ⊎ ((as_list (get "skipped_checks" context) ≡ none)
            × ((check : Fields)
                → IsConsidered entries (artifact_type_of certificate) context check
                → IsDone certificate check))
  unfolding infer_skipped_registry_checks
  settled_sound entries certificate context (some []) e h = inl e
  settled_sound entries certificate context (some (x ∷ xs)) e h = cc
  settled_sound entries certificate context none e h = inr (
    e,
    λ check c.
        all-IsDone certificate _ h check (IsConsidered-complete entries _ context check _ refl c),
  )

  settled_complete :
      (entries : List (String × Fields)) (certificate context : Fields)
      → (as_list (get "skipped_checks" context) ≡ some [])
        ⊎ ((as_list (get "skipped_checks" context) ≡ none)
            × ((check : Fields)
                → IsConsidered entries (artifact_type_of certificate) context check
                → IsDone certificate check))
      → skipped_in entries certificate context (as_list (get "skipped_checks" context)) ≡ []
  unfolding infer_skipped_registry_checks
  settled_complete entries certificate context (inl e) = rw e refl
  settled_complete entries certificate context (inr (e, d)) = rw e (
      none_skipped certificate _
        (λ check m. d check (IsConsidered-sound entries _ context check _ refl m)))

  -- No check counts as skipped exactly when the certificate skips none.
  pub skipped_checks_iff :
      (entries : List (String × Fields)) (certificate : Fields) (given : Option Fields)
      → (skipped_checks entries certificate given ≡ []) ↔ SkipsNothing entries certificate given
  unfolding skipped_checks
  skipped_checks_iff entries certificate given = (
    λ h. record {
      context = _;
      used = context_or-IsContext entries _ given;
      settled = settled_sound entries certificate _ _ refl h;
    },
    λ s.
        subst (λ c. skipped_in entries certificate c (as_list (get "skipped_checks" c)) ≡ [])
          (sym (context_or-eq entries _ given s.context s.used))
          (settled_complete entries certificate s.context s.settled),
  )
