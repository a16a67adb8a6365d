-- ===== src/Acl/Parse/Printed/Pieces.antt =====
-- The pieces of a line: a word, a last parenthesis, and no outer space.
use anytls_go.Common.{
  ℕ, Bytes, [], ◌∷◌, ◌++◌, none, some, Bool, true, false, if◌then◌else◌, ◌≡◌, refl, ap, ◌∙◌, arith,
  All,
}
use anytls_go.Text.{cut}
use anytls_go.Text.Lines.{Lacks}
use anytls_go.Text.Words.{is_space, trim_right, keep}
use anytls_go.Acl.Parse.{is_word, word_first, before_last}

pub word_stops :
    (w s : Bytes) → All (λ c. is_word c ≡ true) w → word_first (w ++ (b'(' ∷ s)) ≡ (w, b'(' ∷ s)
unfolding word_first
word_stops [] s h = refl
word_stops (c ∷ w) s h =
    ap
      (λ b.
        if b
        then (c ∷ (word_first (w ++ (b'(' ∷ s))).0, (word_first (w ++ (b'(' ∷ s))).1)
        else ([], c ∷ (w ++ (b'(' ∷ s))))
      h.0
    ∙ ap (λ (x : Bytes × Bytes). (c ∷ x.0, x.1)) (word_stops w s h.1)

pub last_cut : (s : Bytes) → before_last (s ++ (b')' ∷ [])) ≡ some s
unfolding before_last
last_cut [] = refl
last_cut (c ∷ []) = refl
last_cut (c ∷ d ∷ s) = rw (last_cut (d ∷ s)) refl

-- A text that ends in ')' is trimmed at its end.
pub trim_end : (s : Bytes) → trim_right is_space (s ++ (b')' ∷ [])) ≡ s ++ (b')' ∷ [])
unfolding trim_right
trim_end [] = refl
trim_end (c ∷ s) = ap (keep (is_space c) c) (trim_end s) ∙ keep_more (is_space c) c s
  where
    keep_more :
        (b : Bool) (c : ℕ) (s : Bytes) → keep b c (s ++ (b')' ∷ [])) ≡ c ∷ (s ++ (b')' ∷ []))
    keep_more true c [] = refl
    keep_more true c (d ∷ s) = refl
    keep_more false c [] = refl
    keep_more false c (d ∷ s) = refl

pub word_not_space : (c : ℕ) → is_word c ≡ true → is_space c ≡ false
word_not_space c h = ground arith

pub cut-Lacks : (sep : ℕ) (s : Bytes) → Lacks sep s → cut sep s ≡ none
unfolding cut
cut-Lacks sep [] h = refl
cut-Lacks sep (c ∷ s) h = ground (arith, cut-Lacks sep s h.1)

pub word-Lacks :
    (sep : ℕ) (w : Bytes) → is_word sep ≡ false → All (λ c. is_word c ≡ true) w → Lacks sep w
word-Lacks sep [] n h = tt
word-Lacks sep (c ∷ w) n h = (λ e. let same = ap is_word e in absurd cc, word-Lacks sep w n h.1)
