-- ===== src/Json/Dict.antt =====
-- Dictionary operations: d.get(k), d[k] = v, d.pop(k, None), k in d, and their laws.
use pcs_core.Prelude.{
  true, String, ◌≡◌, refl, Option, none, some, List, [], ◌∷◌, ◌==◌, if◌then◌else◌, arith, eq_iff,
  eq_refl, elem,
}
use pcs_core.Json.{Value, null, Fields, end, field}

unfoldable pub lookup : String → Fields → Option Value
lookup k end = none
lookup k (field j v fs) = if j == k then some v else lookup k fs

abbrev pub or_null : Option Value → Value
or_null none = null
or_null (some v) = v

-- `d.get(k)`: a missing key reads as None.
unfoldable pub get : String → Fields → Value
unfolding lookup
get k fs = or_null (lookup k fs)

-- `d[k] = v`: an existing key keeps its place, a new one goes last.
unfoldable pub put : String → Value → Fields → Fields
put k v end = field k v end
put k v (field j w fs) = if j == k then field j v fs else field j w (put k v fs)

-- `{k: v for k, v in d.items() if k not in ks}`
unfoldable pub without : List String → Fields → Fields
without ks end = end
without ks (field j v fs) = if elem j ks then without ks fs else field j v (without ks fs)

unfoldable pub keys : Fields → List String
keys end = []
keys (field j v fs) = j ∷ keys fs

pub lookup-put :
    (k j : String) (v : Value) (fs : Fields)
    → lookup j (put k v fs) ≡ (if k == j then some v else lookup j fs)
unfolding lookup put
lookup-put k j v end = refl
lookup-put k j v (field i w fs) =
    ground (arith, eq_iff k j, eq_iff i k, eq_iff i j, lookup-put k j v fs)

pub get-put_self : (k : String) (v : Value) (fs : Fields) → get k (put k v fs) ≡ v
unfolding get
get-put_self k v fs = simp (lookup-put, eq_refl)

pub get-put :
    (k j : String) (v : Value) (fs : Fields) → get j (put k v fs) ≡ (if k == j then v else get j fs)
unfolding get
get-put k j v fs = rw lookup-put (ground arith)

pub lookup-without :
    (ks : List String) (k : String) (fs : Fields)
    → lookup k (without ks fs) ≡ (if elem k ks then none else lookup k fs)
unfolding lookup without
lookup-without ks k end = ground arith
lookup-without ks k (field j v fs) = ground (arith, lookup-without ks k fs, eq_iff j k)

-- A key that is taken out may be written before.
pub without-put :
    (ks : List String) (k : String) (v : Value) (fs : Fields)
    → elem k ks ≡ true
    → without ks (put k v fs) ≡ without ks fs
unfolding without put
without-put ks k v end h = rw h
without-put ks k v (field j w fs) h = ground (arith, without-put ks k v fs h, eq_iff j k)
