-- ===== src/Modes/Table.antt =====
-- What a loaded table guarantees: each of its entries is the one that is found under its name.
use pcs_core.Prelude.{
  String, List, [], ◌∷◌, ◌≡◌, ◌≢◌, inl, inr, refl, sym, ap, ◌∙◌, subst, Option, none, some, Bool,
  true, false, not, ◌==◌, if◌then◌else◌, elem, All, arith, Bool-cases, eq_iff, eq_refl, or_left,
  or_right, Result, ok, err, ◌>>=◌, ◌>>◌, raise_if, bind_ok,
}
use pcs_core.Json.{Value, obj, Fields, as_list, truthy}
use pcs_core.Json.Dict.{get}
use pcs_core.Json.Text.{text_or, str_of}
use pcs_core.Host.{Host}
use pcs_core.Runtime.Tenant.Ownership.{All-map}
use pcs_core.Modes.{
  mode_statuses, mode_of, status_of, check_entry, check_entries, nonempty_list,
  load_certificate_mode_status, dicts_in, entries_in, iter_mode_status_entries, find_mode,
  get_certificate_mode_status,
}

pub true_not_false : true ≡ false → ⊥
true_not_false h = cc

not_raised {ℓ} : {E : Type ℓ} (b : Bool) (e : E) → raise_if b e ≡ ok tt → b ≡ false
not_raised true e h = cc
not_raised false e h = refl

-- Two steps that raised nothing.
both_ok {ℓ} :
    {E : Type ℓ} (m k : Result E (Unit {0})) → (m >> k) ≡ ok tt → (m ≡ ok tt) × (k ≡ ok tt)
both_ok (ok tt) k h = (refl, h)
both_ok (err e) k h = cc

double_negation : (b : Bool) → not b ≡ false → b ≡ true
double_negation b h = ground arith

named_of : (s : String) → (s == "") ≡ false → s ≢ ""
named_of s h e = ground (arith, eq_iff s "")

differ :
    (a b : String) (seen : List String)
    → elem a seen ≡ false
    → elem b seen ≡ true
    → (a == b) ≡ false
differ a b seen h k = elim (Bool-cases (a == b)) [
  | inl e ↦ absurd (true_not_false (sym k ∙ ap (λ x. elem x seen) (sym ((eq_iff a b).0 e)) ∙ h))
  | inr e ↦ e
]

absent_tail : (m x : String) (seen : List String) → elem m seen ≡ true → elem m (x ∷ seen) ≡ true
absent_tail m x seen h = or_right (x == m) (elem m seen) h

elem_self : (m : String) (seen : List String) → elem m (m ∷ seen) ≡ true
elem_self m seen = or_left (m == m) (elem m seen) (eq_refl m)

module _ ⦃py : Host⦄ where
  -- What the loop has checked of the entries, after the names seen.
  abbrev Checked : List String → List Fields → Type 0
  Checked seen [] = Unit
  Checked seen (entry ∷ rest) =
      (mode_of entry ≢ "")
      × (elem (mode_of entry) seen ≡ false)
      × (elem (status_of entry) mode_statuses ≡ true)
      × Checked (mode_of entry ∷ seen) rest

  entry_checked :
      (seen : List String) (entry : Fields)
      → check_entry seen entry ≡ ok tt
      → (mode_of entry ≢ "")
        × (elem (mode_of entry) seen ≡ false)
        × (elem (status_of entry) mode_statuses ≡ true)
  entry_checked seen entry h =
      let (h₄, blank) = both_ok _ _ h in
      let (h₃, issued) = both_ok _ _ h₄ in
      let (h₂, known) = both_ok _ _ h₃ in
      let (named, fresh) = both_ok _ _ h₂ in
      (
        named_of (mode_of entry) (not_raised _ _ named),
        not_raised _ _ fresh,
        double_negation _ (not_raised _ _ known),
      )

  check_entries-Checked :
      (seen : List String) (vs : List Value)
      → check_entries seen vs ≡ ok tt
      → Checked seen (dicts_in vs)
  unfolding check_entries
  check_entries-Checked seen [] h = tt
  check_entries-Checked seen (obj entry ∷ rest) h =
      let (first, later) = both_ok _ _ h in
      let (a, b, c) = entry_checked seen entry first in
      (a, b, c, check_entries-Checked (mode_of entry ∷ seen) rest later)
  check_entries-Checked seen (_ ∷ rest) h = cc

  printed : (v : Value) → text_or "" v ≢ "" → str_of v ≡ text_or "" v
  printed v h = elim (Bool-cases (truthy v)) [ inl e ↦ rw e refl | inr e ↦ absurd (h (rw e refl)) ]

  pub found_later :
      (m : String) (entry found : Fields) (rest : List Fields)
      → find_mode m rest ≡ some found
      → find_mode m (entry ∷ rest) ≡ some found
  unfolding find_mode
  found_later m entry found rest h = rw h refl

  pub find_head :
      (m : String) (entry : Fields) (rest : List Fields)
      → find_mode m rest ≡ none
      → find_mode m (entry ∷ rest) ≡ (if str_of (get "mode" entry) == m then some entry else none)
  unfolding find_mode
  find_head m entry rest h = rw h refl

  found_here :
      (m : String) (entry : Fields) (rest : List Fields)
      → find_mode m rest ≡ none
      → mode_of entry ≢ ""
      → find_mode m (entry ∷ rest) ≡ (if mode_of entry == m then some entry else none)
  found_here m entry rest h named =
      find_head m entry rest h
      ∙ ap (λ s. if s == m then some entry else none) (printed (get "mode" entry) named)

  -- A name that is seen is not found later.
  seen_not_found :
      (m : String) (seen : List String) (entries : List Fields)
      → Checked seen entries
      → elem m seen ≡ true
      → find_mode m entries ≡ none
  seen_not_found m seen [] c e = unfold find_mode in refl
  seen_not_found m seen (entry ∷ rest) (named, fresh, known, c) e =
      found_here m entry rest
        (seen_not_found m (mode_of entry ∷ seen) rest c (absent_tail m (mode_of entry) seen e))
        named
      ∙ rw (differ (mode_of entry) m seen fresh e) refl

  -- The entry is the one found under its name, and has a known status.
  abbrev pub IsListed : (String → Option Fields) → Fields → Type 0
  IsListed find entry =
      (find (mode_of entry) ≡ some entry) × (elem (status_of entry) mode_statuses ≡ true)

  found_each :
      (seen : List String) (entries : List Fields)
      → Checked seen entries
      → All (IsListed (λ m. find_mode m entries)) entries
  found_each seen [] c = tt
  found_each seen (entry ∷ rest) (named, fresh, known, c) = (
    (
      found_here (mode_of entry) entry rest
            (seen_not_found (mode_of entry) (mode_of entry ∷ seen) rest c
              (elem_self (mode_of entry) seen))
            named
          ∙ rw (eq_refl (mode_of entry)) refl,
      known,
    ),
    All-map rest (λ e h. (found_later (mode_of e) entry e rest h.0, h.1))
        (found_each (mode_of entry ∷ seen) rest c),
  )

  loaded_modes :
      (table loaded : Fields) (o : Option (List Value))
      → (nonempty_list o >>= λ modes. check_entries [] modes >> ok table) ≡ ok loaded
      → (table ≡ loaded) × Checked [] (entries_in o)
  loaded_modes table loaded (some (v ∷ vs)) h =
      let (u, checked, made) = bind_ok (check_entries [] (v ∷ vs)) _ h in
      (cc, check_entries-Checked [] (v ∷ vs) checked)
  loaded_modes table loaded (some []) h = cc
  loaded_modes table loaded none h = cc

  -- In a table that was loaded without an error every entry is the one that is found under its own
  -- name, so that none hides another, and has one of the five statuses.
  pub load-IsListed :
      (v : Value) (table : Fields)
      → load_certificate_mode_status v ≡ ok table
      → All (IsListed (get_certificate_mode_status table)) (iter_mode_status_entries table)
  unfolding load_certificate_mode_status get_certificate_mode_status iter_mode_status_entries
  load-IsListed (obj t) table h =
      let (same, checked) = loaded_modes t table (as_list (get "modes" t)) h in
      subst
        (λ x.
          All (IsListed (λ m. find_mode m (entries_in (as_list (get "modes" x)))))
            (entries_in (as_list (get "modes" x))))
        same (found_each [] (entries_in (as_list (get "modes" t))) checked)
  load-IsListed (_) table h = cc
