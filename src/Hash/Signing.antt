-- ===== src/Hash/Signing.antt =====
-- The signing message of hash.py separates its three parts.
use Prim.Native.Char.{code}
use Prim.Native.String.append
use Prim.Native.String.{[], ◌∷◌, ◌++◌}
use text.Mathlib.TextLemmas.{append_cancel_left, head-eq_of_cons-eq, tail-eq_of_cons-eq}
use pcs_core.Prelude.{Char, String, ◌≡◌, refl, sym, ap, ◌∙◌, false, arith, ok}
use pcs_core.Hash.{has_colon, signing_message}

abbrev colon : Char
colon = ":"

colon-append : (r : String) → [] ++ (":" ++ r) ≡ colon ∷ r
colon-append r = append.nil (":" ++ r) ∙ append.cons colon [] r ∙ ap (λ s. colon ∷ s) (append.nil r)

not_the_colon : (c : Char) (s : String) → has_colon (c ∷ s) ≡ false → colon ≡ c → ⊥
unfolding has_colon
not_the_colon c s h e = ground (arith, ap code e)

has_colon-tail : (c : Char) (s : String) → has_colon (c ∷ s) ≡ false → has_colon s ≡ false
unfolding has_colon
has_colon-tail c s h = ground arith

-- A text without a colon ends at the first colon.
split_at_colon :
    (s t r q : String)
    → has_colon s ≡ false
    → has_colon t ≡ false
    → s ++ (":" ++ r) ≡ t ++ (":" ++ q)
    → (s ≡ t) × (r ≡ q)
split_at_colon [] [] r q hs ht e =
    (refl, tail-eq_of_cons-eq (sym (colon-append r) ∙ e ∙ colon-append q))
split_at_colon [] (d ∷ t) r q hs ht e = absurd (
    not_the_colon d t ht
      (head-eq_of_cons-eq (sym (colon-append r) ∙ e ∙ append.cons d t (":" ++ q))))
split_at_colon (c ∷ s) [] r q hs ht e = absurd (
    not_the_colon c s hs
      (head-eq_of_cons-eq (sym (colon-append q) ∙ sym e ∙ append.cons c s (":" ++ r))))
split_at_colon (c ∷ s) (d ∷ t) r q hs ht e =
    let step : c ∷ (s ++ (":" ++ r)) ≡ d ∷ (t ++ (":" ++ q)) =
      sym (append.cons c s (":" ++ r)) ∙ e ∙ append.cons d t (":" ++ q) in
    let (p, rest) =
      split_at_colon s t r q (has_colon-tail c s hs) (has_colon-tail d t ht)
        (tail-eq_of_cons-eq step) in
    (cc (head-eq_of_cons-eq step, p), rest)

module _ (kind version digest m : String) where
  accepted_parts :
      signing_message kind version digest ≡ ok m
      → (has_colon kind ≡ false)
        × (has_colon version ≡ false)
        × ("PCS:" ++ (kind ++ (":" ++ (version ++ (":" ++ digest)))) ≡ m)
  unfolding signing_message
  accepted_parts h = ground arith

-- Two accepted messages that are equal name the same artifact type, schema version and digest.
pub signing_message_inj :
    (k v d k' v' d' m : String)
    → signing_message k v d ≡ ok m
    → signing_message k' v' d' ≡ ok m
    → (k ≡ k') × (v ≡ v') × (d ≡ d')
signing_message_inj k v d k' v' d' m h h' =
    let (ck, cv, e) = accepted_parts k v d m h in
    let (ck', cv', e') = accepted_parts k' v' d' m h' in
    let (ek, rest) = split_at_colon k k' _ _ ck ck' (
      append_cancel_left "PCS:" (k ++ (":" ++ (v ++ (":" ++ d))))
        (k' ++ (":" ++ (v' ++ (":" ++ d')))) (e ∙ sym e')) in
    let (ev, ed) = split_at_colon v v' d d' cv cv' rest in (ek, ev, ed)
