-- ===== src/Runtime/Tenant/Ownership.antt =====
-- What same_tenant means, and lists of violations without an entry.
use pcs_core.Prelude.{
  ℕ, suc, String, List, [], ◌∷◌, ◌≡◌, refl, ◌↔◌, Option, none, some, All, Bool, true, ◌&&◌, all,
  arith, eq_iff,
}
use pcs_core.Json.{Value, obj, Fields, as_list}
use pcs_core.Json.Dict.{get}
use pcs_core.Json.Text.{text_or}
use pcs_core.Host.{Host}
use pcs_core.Runtime.Chain.Meaning.{nil_of_append}
use pcs_core.Runtime.Tenant.{for_events, is_in_tenant, all_in_tenant, tenant_of, same_tenant}

-- A list of violations is empty exactly when no event has one.
pub for_events_sound {ℓ} :
    {A : Type ℓ} (P : Value → Type 0) (f : ℕ → Value → List A)
    → ((i : ℕ) (v : Value) → f i v ≡ [] → P v)
    → (i : ℕ) (vs : List Value) → for_events f i vs ≡ []
    → All P vs
for_events_sound P f each i [] h = tt
for_events_sound P f each i (v ∷ vs) h =
    let (here, later) = nil_of_append (f i v) _ h in
    (each i v here, for_events_sound P f each (suc i) vs later)

pub for_events_complete {ℓ} :
    {A : Type ℓ} (P : Value → Type 0) (f : ℕ → Value → List A)
    → ((i : ℕ) (v : Value) → P v → f i v ≡ [])
    → (i : ℕ) (vs : List Value) → All P vs
    → for_events f i vs ≡ []
for_events_complete P f each i [] h = refl
for_events_complete P f each i (v ∷ vs) h =
    rw (each i v h.0) (for_events_complete P f each (suc i) vs h.1)

pub All-map {ℓ} :
    {A : Type ℓ} {P Q : A → Type 0} (xs : List A) → ((x : A) → P x → Q x) → All P xs → All Q xs
All-map [] f h = tt
All-map (x ∷ xs) f h = (f x h.0, All-map xs f h.1)

module _ ⦃py : Host⦄ where
  -- Every resource that is a dictionary names the tenant.
  abbrev pub IsInTenant : String → Value → Type 0
  IsInTenant tenant (obj r) = text_or "" (get "tenant" r) ≡ tenant
  IsInTenant tenant _ = Unit

  abbrev pub AllInTenant : String → Option (List Value) → Type 0
  AllInTenant tenant none = Unit
  AllInTenant tenant (some rs) = All (IsInTenant tenant) rs

  -- The principal's tenant owns all that the action reads and writes.
  abbrev pub IsWithinTenant : Fields → Fields → Type 0
  IsWithinTenant p a =
      AllInTenant (tenant_of p) (as_list (get "reads" a))
      × AllInTenant (tenant_of p) (as_list (get "writes" a))

  all_sound :
      (tenant : String) (rs : List Value)
      → all (is_in_tenant tenant) rs ≡ true
      → All (IsInTenant tenant) rs
  all_sound tenant [] h = tt
  all_sound tenant (obj r ∷ rs) h = (
    ground (arith, eq_iff (text_or "" (get "tenant" r)) tenant),
    all_sound tenant rs (ground arith),
  )
  all_sound tenant (_ ∷ rs) h = (tt, all_sound tenant rs h)

  all_complete :
      (tenant : String) (rs : List Value)
      → All (IsInTenant tenant) rs
      → all (is_in_tenant tenant) rs ≡ true
  all_complete tenant [] h = refl
  all_complete tenant (obj r ∷ rs) h =
      rw ((eq_iff (text_or "" (get "tenant" r)) tenant).1 h.0) (all_complete tenant rs h.1)
  all_complete tenant (_ ∷ rs) h = all_complete tenant rs h.1

  option_sound :
      (tenant : String) (o : Option (List Value))
      → all_in_tenant tenant o ≡ true
      → AllInTenant tenant o
  option_sound tenant none h = tt
  option_sound tenant (some rs) h = all_sound tenant rs h

  option_complete :
      (tenant : String) (o : Option (List Value))
      → AllInTenant tenant o
      → all_in_tenant tenant o ≡ true
  option_complete tenant none h = refl
  option_complete tenant (some rs) h = all_complete tenant rs h

  both_true : (a b : Bool) → (a && b) ≡ true → (a ≡ true) × (b ≡ true)
  both_true a b h = ground arith

  pub same_tenant_iff : (p a : Fields) → (same_tenant p a ≡ true) ↔ IsWithinTenant p a
  unfolding same_tenant
  same_tenant_iff p a = (
    λ h.
        let (r, w) = both_true _ _ h in
        (
          option_sound (tenant_of p) (as_list (get "reads" a)) r,
          option_sound (tenant_of p) (as_list (get "writes" a)) w,
        ),
    λ h.
        rw (option_complete (tenant_of p) (as_list (get "reads" a)) h.0)
          (option_complete (tenant_of p) (as_list (get "writes" a)) h.1),
  )
