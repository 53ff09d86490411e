-- ===== src/Prelude/TextOrder.antt =====
-- Python orders texts by their code points, as `compare` does: a strict total order.
use Prim.Native.Nat.{ℕ, Ordering, compare as compare_ℕ}
use Prim.Native.Char.{code}
use Prim.Native.String.compare
use Prim.Native.String.{String, [], ◌∷◌, compare, then}
use mathlib.Core.Path.{◌≡◌, refl, sym, ap, ◌∙◌}
use mathlib.Core.Bool.{Bool, true, false}
use native.Mathlib.Omega.{arith}
use text.Mathlib.Text.{is_lt}
use text.Mathlib.TextEquality.{path_by_compare}
use text.Mathlib.TextPositions.{compare_refl}

-- s < t
abbrev pub text_lt : String → String → Bool
text_lt s t = is_lt (compare s t)

flip_then :
    (m n : ℕ) (o p : Ordering)
    → (o ≡ Ordering.gt → p ≡ Ordering.lt)
    → then (compare_ℕ m n) o ≡ Ordering.gt
    → then (compare_ℕ n m) p ≡ Ordering.lt
flip_then m n o p flip h = ground (arith)

compare_flip : (s t : String) → compare s t ≡ Ordering.gt → compare t s ≡ Ordering.lt
compare_flip [] [] h = cc (compare.nil-nil)
compare_flip [] (d ∷ t) h = cc (compare.nil-cons d t)
compare_flip (c ∷ s) [] h = compare.nil-cons c s
compare_flip (c ∷ s) (d ∷ t) h =
    compare.cons-cons d c t s
    ∙ flip_then (code c) (code d) (compare s t) (compare t s) (compare_flip s t)
        (sym (compare.cons-cons c d s t) ∙ h)

trans_then :
    (l m n : ℕ) (o p q : Ordering)
    → (o ≡ Ordering.lt → p ≡ Ordering.lt → q ≡ Ordering.lt)
    → then (compare_ℕ l m) o ≡ Ordering.lt
    → then (compare_ℕ m n) p ≡ Ordering.lt
    → then (compare_ℕ l n) q ≡ Ordering.lt
trans_then l m n o p q trans h k = ground (arith)

compare_trans :
    (s t u : String)
    → compare s t ≡ Ordering.lt
    → compare t u ≡ Ordering.lt
    → compare s u ≡ Ordering.lt
compare_trans s [] [] h k = cc compare.nil-nil
compare_trans s (d ∷ t) [] h k = cc (compare.cons-nil d t)
compare_trans [] t (e ∷ u) h k = compare.nil-cons e u
compare_trans (c ∷ s) [] (e ∷ u) h k = cc (compare.cons-nil c s)
compare_trans (c ∷ s) (d ∷ t) (e ∷ u) h k =
    compare.cons-cons c e s u
    ∙ trans_then (code c) (code d) (code e) (compare s t) (compare t u) (compare s u)
        (compare_trans s t u) (sym (compare.cons-cons c d s t) ∙ h)
        (sym (compare.cons-cons d e t u) ∙ k)

is_lt-true : (o : Ordering) → is_lt o ≡ true → o ≡ Ordering.lt
is_lt-true Ordering.lt h = refl
is_lt-true Ordering.eq h = cc
is_lt-true Ordering.gt h = cc

pub text_lt_trans : (s t u : String) → text_lt s t ≡ true → text_lt t u ≡ true → text_lt s u ≡ true
text_lt_trans s t u h k =
    ap is_lt (compare_trans s t u (is_lt-true (compare s t) h) (is_lt-true (compare t u) k))

pub text_lt_irrefl : (s : String) → text_lt s s ≡ false
text_lt_irrefl s = ap is_lt (compare_refl s)

pub text_lt_asymm : (s t : String) → text_lt s t ≡ true → text_lt t s ≡ false
text_lt_asymm s t h = asymm (text_lt t s) refl
  where
    asymm : (b : Bool) → text_lt t s ≡ b → b ≡ false
    asymm false e = refl
    asymm true e = cc (text_lt_trans s t s h e, text_lt_irrefl s)

not_lt :
    (s t : String) (o : Ordering)
    → compare s t ≡ o
    → is_lt o ≡ false
    → (s ≡ t → ⊥)
    → text_lt t s ≡ true
not_lt s t Ordering.lt e h ne = cc
not_lt s t Ordering.eq e h ne = absurd (ne (path_by_compare s t e))
not_lt s t Ordering.gt e h ne = ap is_lt (compare_flip s t e)

-- Two texts of which the first is not smaller are equal, or the second is smaller.
pub text_lt_total : (s t : String) → text_lt s t ≡ false → (s ≡ t → ⊥) → text_lt t s ≡ true
text_lt_total s t h ne = not_lt s t (compare s t) refl h ne
