-- ===== src/Acl/Glob.antt =====
-- What deepMatchRune decides: '*' stands for any text, every other rune for itself.
use anytls_go.Common.{
  ℕ, List, [], ◌∷◌, ◌++◌, Bool, true, false, ◌||◌, ◌==◌, if◌then◌else◌, ◌≡◌, ◌≢◌, refl, sym, ap,
  ◌∙◌, ◌⊎◌, inl, inr, ◌↔◌, arith, Bool-cases, ==_iff, ==_refl,
}
use mathlib.Core.Bool.{false≢true}
use anytls_go.Acl.Host.{deep_match_rune, star, literal, is_empty}

unfoldable pub IsGlob : List ℕ → List ℕ → Type 0
IsGlob [] str = str ≡ []
IsGlob (p ∷ pattern) str =
    ((p ≡ b'*')
      × (some_text : List ℕ) × (rest : List ℕ) × (str ≡ some_text ++ rest)
      × IsGlob pattern rest)
    ⊎ ((p ≢ b'*') × (rest : List ℕ) × (str ≡ p ∷ rest) × IsGlob pattern rest)

star-split :
    (f : List ℕ → Bool) (str : List ℕ)
    → star f str ≡ true
    → (some_text : List ℕ) × (rest : List ℕ) × (str ≡ some_text ++ rest) × (f rest ≡ true)
star-split f [] h = ([], [], refl, h)
star-split f (c ∷ str) h = elim (Bool-cases (f (c ∷ str))) [
  | inl e ↦ ([], c ∷ str, refl, e)
  | inr e ↦
      let (t, rest, same, hit) = star-split f str (sym (ap (λ b. b || star f str) e) ∙ h) in
      (c ∷ t, rest, ap (λ x. c ∷ x) same, hit)
]

star-append : (f : List ℕ → Bool) (t rest : List ℕ) → f rest ≡ true → star f (t ++ rest) ≡ true
star-append f [] [] h = h
star-append f [] (c ∷ rest) h = ground arith
star-append f (c ∷ t) rest h = ground (arith, star-append f t rest h)

literal-split :
    (f : List ℕ → Bool) (p : ℕ) (str : List ℕ)
    → literal f p str ≡ true
    → (rest : List ℕ) × (str ≡ p ∷ rest) × (f rest ≡ true)
literal-split f p [] h = cc
literal-split f p (c ∷ str) h = elim (Bool-cases (c == p)) [
  | inl e ↦
      (str, ap (λ x. x ∷ str) ((==_iff c p).0 e), sym (ap (λ b. if b then f str else false) e) ∙ h)
  | inr e ↦ absurd (false≢true (sym (ap (λ b. if b then f str else false) e) ∙ h))
]

is_empty-nil : (str : List ℕ) → is_empty str ≡ true → str ≡ []
is_empty-nil [] h = refl
is_empty-nil (c ∷ str) h = cc

matched : (pattern str : List ℕ) → deep_match_rune pattern str ≡ true → IsGlob pattern str
unfolding deep_match_rune IsGlob
matched [] str h = is_empty-nil str h
matched (p ∷ pattern) str h = elim (Bool-cases (p == b'*')) [
  | inl e ↦
      let (t, rest, same, hit) = star-split (deep_match_rune pattern) str (
        sym (
          ap
            (λ b.
              if b
              then star (deep_match_rune pattern) str
              else literal (deep_match_rune pattern) p str)
            e)
        ∙ h) in
      inl ((==_iff p b'*').0 e, t, rest, same, matched pattern rest hit)
  | inr e ↦
      let (rest, same, hit) = literal-split (deep_match_rune pattern) p str (
        sym (
          ap
            (λ b.
              if b
              then star (deep_match_rune pattern) str
              else literal (deep_match_rune pattern) p str)
            e)
        ∙ h) in
      inr (
        λ same_rune. false≢true (sym e ∙ (==_iff p b'*').1 same_rune),
        rest,
        same,
        matched pattern rest hit,
      )
]

matches : (pattern str : List ℕ) → IsGlob pattern str → deep_match_rune pattern str ≡ true
unfolding deep_match_rune IsGlob
matches [] str g = ap is_empty g
matches (p ∷ pattern) str (inl (e, t, rest, same, g)) =
    let hit = star-append (deep_match_rune pattern) t rest (matches pattern rest g) in
    ap
      (λ b.
        if b then star (deep_match_rune pattern) str else literal (deep_match_rune pattern) p str)
      ((==_iff p b'*').1 e)
    ∙ ap (star (deep_match_rune pattern)) same
    ∙ hit
matches (p ∷ pattern) str (inr (e, rest, same, g)) =
    let hit = matches pattern rest g in
    let miss : (p == b'*') ≡ false = ground (arith, ==_iff p b'*') in
    ap
      (λ b.
        if b then star (deep_match_rune pattern) str else literal (deep_match_rune pattern) p str)
      miss
    ∙ ap (literal (deep_match_rune pattern) p) same
    ∙ ap (λ b. if b then deep_match_rune pattern rest else false) (==_refl p)
    ∙ hit

-- The wildcard matcher accepts a name exactly when the name is the pattern with some text in the
-- place of each '*'.
pub deep_match-IsGlob :
    (pattern str : List ℕ) → (deep_match_rune pattern str ≡ true) ↔ IsGlob pattern str
deep_match-IsGlob pattern str = (matched pattern str, matches pattern str)
