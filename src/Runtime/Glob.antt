-- ===== src/Runtime/Glob.antt =====
-- The resource patterns of pf_core_runtime.py: the matcher on fuel, and that it decides the meaning
-- of a pattern.
use Prim.Native.Char.{code}
use mathlib.Core.List.{append-nil}
use pcs_core.Prelude.{
  ◌⊎◌, eqb_iff, ◌≡◌, refl, sym, subst, ◌↔◌, ◌<◌, arith, eq_iff, Bool-cases, inl, inr, ℕ, zero, suc,
  ◌+◌, String, List, [], ◌∷◌, ◌++◌, Bool, true, false, ◌==◌, eqb, length, if◌then◌else◌,
}

abbrev pub chars : String → List ℕ
chars String.[] = []
chars (String.◌∷◌ c s) = code c ∷ chars s

abbrev pub star : ℕ
star = 42

abbrev pub is_nil : List ℕ → Bool
is_nil [] = true
is_nil (x ∷ xs) = false

-- _glob_match_chars_fuel
unfoldable pub glob_match_chars_fuel : ℕ → List ℕ → List ℕ → Bool
glob_match_chars_fuel zero p u = false
glob_match_chars_fuel (suc fuel) [] u = is_nil u
glob_match_chars_fuel (suc fuel) (c ∷ p) [] =
    let skip = glob_match_chars_fuel fuel p [] in if eqb c star then skip else false
glob_match_chars_fuel (suc fuel) (c ∷ p) (d ∷ u) =
    let skip = glob_match_chars_fuel fuel p (d ∷ u) in
    let take = glob_match_chars_fuel fuel (c ∷ p) u in
    let next = glob_match_chars_fuel fuel p u in
    if eqb c star then (if skip then true else take) else if eqb c d then next else false

unfoldable pub glob_match : String → String → Bool
unfolding glob_match_chars_fuel
glob_match pattern uri =
    let p = chars pattern in
    let u = chars uri in glob_match_chars_fuel (length p + length u + 1) p u

unfoldable pub resource_matches_pattern : String → String → Bool
unfolding glob_match
resource_matches_pattern uri pattern = if pattern == "*" then true else glob_match pattern uri

-- What a pattern means, with no order of search: a star stands for any run of characters and every
-- other character for itself.
pub data Matches : List ℕ → List ℕ → Type 0 where
  done : Matches [] []
  run : {p u : List ℕ} (w : List ℕ) → Matches p u → Matches (star ∷ p) (w ++ u)
  itself : {c : ℕ} {p u : List ℕ} → (eqb c star ≡ false) → Matches p u → Matches (c ∷ p) (c ∷ u)

skip_star :
    (f : ℕ) (p u : List ℕ)
    → glob_match_chars_fuel f p u ≡ true
    → glob_match_chars_fuel (suc f) (star ∷ p) u ≡ true
unfolding glob_match_chars_fuel
skip_star f p [] h = ground arith
skip_star f p (d ∷ u) h = ground arith

take_one :
    (f : ℕ) (p : List ℕ) (d : ℕ) (u : List ℕ)
    → glob_match_chars_fuel f (star ∷ p) u ≡ true
    → glob_match_chars_fuel (suc f) (star ∷ p) (d ∷ u) ≡ true
unfolding glob_match_chars_fuel
take_one f p d u h = ground arith

same_char :
    (f c : ℕ) (p u : List ℕ)
    → eqb c star ≡ false
    → glob_match_chars_fuel f p u ≡ true
    → glob_match_chars_fuel (suc f) (c ∷ p) (c ∷ u) ≡ true
unfolding glob_match_chars_fuel
same_char f c p u e h = ground arith

complete :
    (f : ℕ) {p u : List ℕ}
    → Matches p u
    → length p + length u < f
    → glob_match_chars_fuel f p u ≡ true
complete zero m h = elim h [ ]
complete (suc f) done h = unfold glob_match_chars_fuel in refl
complete (suc f) (run {p} {u} [] m) h = skip_star f p u (complete f m (omega arith))
complete (suc f) (run {p} {u} (d ∷ w) m) h =
    take_one f p d (w ++ u) (complete f (run w m) (omega arith))
complete (suc f) (itself {c} {p} {u} e m) h = same_char f c p u e (complete f m (omega arith))

longer_run :
    {c : ℕ} {p u : List ℕ} (d : ℕ) → eqb c star ≡ true → Matches (c ∷ p) u → Matches (c ∷ p) (d ∷ u)
longer_run d e (run w m) = run (d ∷ w) m
longer_run d e (itself k m) = cc

empty_run : {c : ℕ} {p u : List ℕ} → eqb c star ≡ true → Matches p u → Matches (c ∷ p) u
empty_run {c} {p} {u} e m = subst (λ k. Matches (k ∷ p) u) (sym ((eqb_iff c star).0 e)) (run [] m)

same_head :
    {c d : ℕ} {p u : List ℕ}
    → eqb c star ≡ false
    → eqb c d ≡ true
    → Matches p u
    → Matches (c ∷ p) (d ∷ u)
same_head {c} {d} {p} {u} e k m =
    subst (λ x. Matches (c ∷ p) (x ∷ u)) ((eqb_iff c d).0 k) (itself e m)

end_step :
    (f c : ℕ) (p : List ℕ)
    → glob_match_chars_fuel (suc f) (c ∷ p) [] ≡ true
    → (eqb c star ≡ true) × (glob_match_chars_fuel f p [] ≡ true)
unfolding glob_match_chars_fuel
end_step f c p h = ground arith

-- The three ways to go on.
char_step :
    (f c : ℕ) (p : List ℕ) (d : ℕ) (u : List ℕ)
    → glob_match_chars_fuel (suc f) (c ∷ p) (d ∷ u) ≡ true
    → ((eqb c star ≡ true) × (glob_match_chars_fuel f p (d ∷ u) ≡ true))
      ⊎ ((eqb c star ≡ true) × (glob_match_chars_fuel f (c ∷ p) u ≡ true))
      ⊎ ((eqb c star ≡ false) × (eqb c d ≡ true) × (glob_match_chars_fuel f p u ≡ true))
unfolding glob_match_chars_fuel
char_step f c p d u h = ground arith

empty_step : (f d : ℕ) (u : List ℕ) → glob_match_chars_fuel (suc f) [] (d ∷ u) ≡ true → ⊥
unfolding glob_match_chars_fuel
empty_step f d u h = cc

no_fuel : (p u : List ℕ) → glob_match_chars_fuel zero p u ≡ true → ⊥
unfolding glob_match_chars_fuel
no_fuel p u h = cc

sound : (f : ℕ) (p u : List ℕ) → glob_match_chars_fuel f p u ≡ true → Matches p u
sound zero p u h = absurd (no_fuel p u h)
sound (suc f) [] [] h = done
sound (suc f) [] (d ∷ u) h = absurd (empty_step f d u h)
sound (suc f) (c ∷ p) [] h = let (e, k) = end_step f c p h in empty_run e (sound f p [] k)
sound (suc f) (c ∷ p) (d ∷ u) h = elim (char_step f c p d u h) [
  | inl (e, k) ↦ empty_run e (sound f p (d ∷ u) k)
  | inr (inl (e, k)) ↦ longer_run d e (sound f (c ∷ p) u k)
  | inr (inr (e, same, k)) ↦ same_head e same (sound f p u k)
]

glob_match_iff :
    (pattern uri : String) → (glob_match pattern uri ≡ true) ↔ Matches (chars pattern) (chars uri)
unfolding glob_match
glob_match_iff pattern uri = (sound _ (chars pattern) (chars uri), λ m. complete _ m (omega arith))

any_text : (u : List ℕ) → Matches (star ∷ []) u
any_text u = subst (Matches (star ∷ [])) (append-nil u) (run u done)

-- The matcher accepts exactly the texts that the pattern means: its fuel, one more than the two
-- lengths together, is enough for every pattern and text, and the shortcut for "*" changes nothing.
pub resource_matches_pattern_iff :
    (uri pattern : String)
    → (resource_matches_pattern uri pattern ≡ true) ↔ Matches (chars pattern) (chars uri)
unfolding resource_matches_pattern
resource_matches_pattern_iff uri pattern = elim (Bool-cases (pattern == "*")) [
  | inl e ↦ rw e (
    λ h.
        subst (λ p. Matches (chars p) (chars uri)) (sym ((eq_iff pattern "*").0 e))
          (any_text (chars uri)),
    λ m. refl,
  )
  | inr e ↦ rw e (unfold glob_match in glob_match_iff pattern uri)
]

same_answer : (a b : Bool) → (a ≡ true → b ≡ true) → (b ≡ true → a ≡ true) → a ≡ b
same_answer true b f g = sym (f refl)
same_answer false true f g = g refl
same_answer false false f g = refl

-- The matcher does not run out of fuel: with any fuel above the two lengths together it gives the
-- answer of glob_match, so that more fuel changes nothing.
pub glob_match-fuel :
    (fuel : ℕ) (pattern uri : String)
    → length (chars pattern) + length (chars uri) < fuel
    → glob_match_chars_fuel fuel (chars pattern) (chars uri) ≡ glob_match pattern uri
glob_match-fuel fuel pattern uri enough =
    same_answer _ _ (λ h. (glob_match_iff pattern uri).1 (sound fuel (chars pattern) (chars uri) h))
      (λ h. complete fuel ((glob_match_iff pattern uri).0 h) enough)
