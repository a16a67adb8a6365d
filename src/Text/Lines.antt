-- ===== src/Text/Lines.antt =====
-- Splitting a join gives the parts back; cutting at a separator finds the first one.
use anytls_go.Common.{ℕ, ◌≡◌, ◌≢◌, refl, Bytes, List, [], ◌∷◌, ◌++◌, some, arith, All}
use anytls_go.Text.{split, cut, join}

abbrev pub Lacks : ℕ → Bytes → Type 0
Lacks sep s = All (λ c. c ≢ sep) s

split-Lacks : (sep : ℕ) (p : Bytes) → Lacks sep p → split sep p ≡ p ∷ []
unfolding split
split-Lacks sep [] h = refl
split-Lacks sep (c ∷ p) h = ground (arith, split-Lacks sep p h.1)

split-append :
    (sep : ℕ) (p rest : Bytes) → Lacks sep p → split sep (p ++ (sep ∷ rest)) ≡ p ∷ split sep rest
unfolding split
split-append sep [] rest h = ground arith
split-append sep (c ∷ p) rest h = ground (arith, split-append sep p rest h.1)

pub split-join :
    (sep : ℕ) (ps : List Bytes) → ps ≢ [] → All (Lacks sep) ps → split sep (join sep ps) ≡ ps
unfolding join
split-join sep [] h a = absurd (h refl)
split-join sep (p ∷ []) h a = split-Lacks sep p a.0
split-join sep (p ∷ q ∷ ps) h a =
    ground
      (arith, split-append sep p (join sep (q ∷ ps)) a.0, split-join sep (q ∷ ps) (λ e. cc) a.1)

pub cut-append : (sep : ℕ) (k v : Bytes) → Lacks sep k → cut sep (k ++ (sep ∷ v)) ≡ some (k, v)
unfolding cut
cut-append sep [] v h = ground arith
cut-append sep (c ∷ k) v h = ground (arith, cut-append sep k v h.1)
