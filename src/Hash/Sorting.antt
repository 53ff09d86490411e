-- ===== src/Hash/Sorting.antt =====
-- The order in which `sort_fields` writes a dictionary: sorted by key, the entries unchanged.
use mathlib.Core.Option
use pcs_core.Prelude.{
  String, ◌≡◌, refl, sym, subst, ◌∙◌, ap, inl, inr, true, none, some, ◌==◌, if◌then◌else◌, arith,
  eq_iff, eq_refl, text_lt, text_lt_trans, text_lt_irrefl, text_lt_total, Bool-cases,
}
use pcs_core.Json.{Value, Fields, end, field}
use pcs_core.Json.Dict.{lookup}
use pcs_core.Hash.{insert_sorted, sort_keys, sort_fields}

-- No key stands twice, as in every dictionary.
abbrev pub HasUniqueKeys : Fields → Type 0
HasUniqueKeys end = Unit
HasUniqueKeys (field k v fs) = (lookup k fs ≡ none) × HasUniqueKeys fs

-- All keys are greater than k.
abbrev pub IsAbove : String → Fields → Type 0
IsAbove k end = Unit
IsAbove k (field j v fs) = (text_lt k j ≡ true) × IsAbove k fs

abbrev pub IsSorted : Fields → Type 0
IsSorted end = Unit
IsSorted (field k v fs) = IsAbove k fs × IsSorted fs

IsAbove-trans : (i k : String) (fs : Fields) → text_lt i k ≡ true → IsAbove k fs → IsAbove i fs
IsAbove-trans i k end lt h = tt
IsAbove-trans i k (field j v fs) lt h = (text_lt_trans i k j lt h.0, IsAbove-trans i k fs lt h.1)

pub lookup-insert_sorted :
    (k j : String) (v : Value) (fs : Fields)
    → lookup j (insert_sorted k v fs) ≡ (if k == j then some v else lookup j fs)
unfolding lookup insert_sorted
lookup-insert_sorted k j v end = refl
lookup-insert_sorted k j v (field i w fs) =
    ground (arith, lookup-insert_sorted k j v fs, eq_iff i j, eq_iff k j, text_lt_irrefl j)

pub lookup-sort_fields :
    (k : String) (fs : Fields) → lookup k (sort_fields fs) ≡ Option.map sort_keys (lookup k fs)
unfolding lookup sort_fields
lookup-sort_fields k end = refl
lookup-sort_fields k (field j v fs) =
    ground (arith, lookup-insert_sorted j k (sort_keys v) (sort_fields fs), lookup-sort_fields k fs)

IsAbove-insert_sorted :
    (i k : String) (v : Value) (fs : Fields)
    → text_lt i k ≡ true
    → IsAbove i fs
    → IsAbove i (insert_sorted k v fs)
unfolding insert_sorted
IsAbove-insert_sorted i k v end lt h = (lt, tt)
IsAbove-insert_sorted i k v (field j w fs) lt h = elim (Bool-cases (text_lt j k)) [
  | inl e ↦ rw e (h.0, IsAbove-insert_sorted i k v fs lt h.1)
  | inr e ↦ rw e (lt, h)
]

absent_head :
    (k j : String) (v : Value) (fs : Fields)
    → lookup k (field j v fs) ≡ none
    → (j ≡ k → ⊥) × (lookup k fs ≡ none)
unfolding lookup
absent_head k j v fs h = (λ e. ground (arith, eq_iff j k), ground arith)

pub insert_sorted-IsSorted :
    (k : String) (v : Value) (fs : Fields)
    → lookup k fs ≡ none
    → IsSorted fs
    → IsSorted (insert_sorted k v fs)
unfolding insert_sorted
insert_sorted-IsSorted k v end h s = (tt, tt)
insert_sorted-IsSorted k v (field j w fs) h s = elim (Bool-cases (text_lt j k)) [
  | inl e ↦ rw e (
    IsAbove-insert_sorted j k v fs e s.0,
    insert_sorted-IsSorted k v fs (absent_head k j w fs h).1 s.1,
  )
  | inr e ↦
      let lt : text_lt k j ≡ true = text_lt_total j k e (absent_head k j w fs h).0 in
      rw e ((lt, IsAbove-trans k j fs lt s.0), s)
]

absent-sort_fields :
    (k : String) (fs : Fields) → lookup k fs ≡ none → lookup k (sort_fields fs) ≡ none
absent-sort_fields k fs h = rw (lookup-sort_fields k fs) (ap (Option.map sort_keys) h)

pub sort_fields-IsSorted : (fs : Fields) → HasUniqueKeys fs → IsSorted (sort_fields fs)
unfolding sort_fields
sort_fields-IsSorted end h = tt
sort_fields-IsSorted (field k v fs) h =
    insert_sorted-IsSorted k (sort_keys v) (sort_fields fs) (absent-sort_fields k fs h.0)
      (sort_fields-IsSorted fs h.1)

lookup_above : (k : String) (fs : Fields) → IsAbove k fs → lookup k fs ≡ none
unfolding lookup
lookup_above k end h = refl
lookup_above k (field j v fs) h =
    ground (arith, lookup_above k fs h.1, eq_iff j k, text_lt_irrefl k)

lookup_head : (k : String) (v : Value) (fs : Fields) → lookup k (field k v fs) ≡ some v
unfolding lookup
lookup_head k v fs = rw (eq_refl k)

lookup_tail :
    (k j : String) (v : Value) (fs : Fields) → (j ≡ k → ⊥) → lookup k (field j v fs) ≡ lookup k fs
unfolding lookup
lookup_tail k j v fs ne = ground (arith, eq_iff j k)

-- Where the first keys differ, the smaller one is missing on the other side.
head_key :
    (k j : String) (v w : Value) (a b : Fields)
    → IsAbove k a
    → IsAbove j b
    → ((i : String) → lookup i (field k v a) ≡ lookup i (field j w b))
    → k ≡ j
unfolding lookup
head_key k j v w a b ha hb same = elim (Bool-cases (text_lt k j)) [
  | inl lt ↦
      cc (same k, lookup_head k v a, lookup_above k (field j w b) (lt, IsAbove-trans k j b lt hb))
  | inr ge ↦ elim (Bool-cases (k == j)) [
    | inl e ↦ (eq_iff k j).0 e
    | inr e ↦
        let lt : text_lt j k ≡ true = text_lt_total k j ge (λ p. ground (arith, eq_iff k j)) in
        cc (same j, lookup_head j w b, lookup_above j (field k v a) (lt, IsAbove-trans j k a lt ha))
  ]
]

-- The rests agree everywhere, at the shared head key too: neither holds it.
tails_agree :
    (k : String) (v w : Value) (a b : Fields)
    → IsAbove k a
    → IsAbove k b
    → ((i : String) → lookup i (field k v a) ≡ lookup i (field k w b))
    → (i : String) → lookup i a ≡ lookup i b
tails_agree k v w a b ha hb same i = elim (Bool-cases (k == i)) [
  | inl e ↦
      subst (λ j. lookup j a ≡ lookup j b) ((eq_iff k i).0 e)
        (lookup_above k a ha ∙ sym (lookup_above k b hb))
  | inr e ↦
      let ne : k ≡ i → ⊥ = λ p. ground (arith, eq_iff k i) in
      sym (lookup_tail i k v a ne) ∙ same i ∙ lookup_tail i k w b ne
]

-- Sorted dictionaries with the same entries are one sequence.
pub IsSorted-unique :
    (a b : Fields) → IsSorted a → IsSorted b → ((k : String) → lookup k a ≡ lookup k b) → a ≡ b
IsSorted-unique end end ha hb same = refl
IsSorted-unique end (field j w b) ha hb same =
    absurd (unfold lookup in cc (same j, lookup_head j w b))
IsSorted-unique (field k v a) end ha hb same =
    absurd (unfold lookup in cc (same k, lookup_head k v a))
IsSorted-unique (field k v a) (field j w b) ha hb same =
    let e : k ≡ j = head_key k j v w a b ha.0 hb.0 same in
    let same' : (i : String) → lookup i (field k v a) ≡ lookup i (field k w b) =
      subst (λ l. (i : String) → lookup i (field k v a) ≡ lookup i (field l w b)) (sym e) same in
    let above : IsAbove k b = subst (λ l. IsAbove l b) (sym e) hb.0 in
    let rest : a ≡ b = IsSorted-unique a b ha.1 hb.1 (tails_agree k v w a b ha.0 above same') in
    let heads : some v ≡ some w = sym (lookup_head k v a) ∙ same' k ∙ lookup_head k w b in
    cc (e, heads, rest)
