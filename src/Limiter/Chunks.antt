-- ===== src/Limiter/Chunks.antt =====
-- Waiting and writing in chunks: none is larger than the burst, and together they are the whole.
use anytls_go.Common.{
  ℕ, zero, suc, ◌+◌, ◌-◌, ◌≤◌, ◌<◌, min, Bytes, List, [], ◌∷◌, ◌++◌, Option, none, some, Error,
  length, take, drop, concat, All, ◌==◌, if◌then◌else◌, ◌≡◌, refl, sym, ap, ◌∙◌, arith, ==_iff,
  Bool-cases, inl, inr, fun_ext, take-append-drop, length-zero, length-take, length-drop,
}
use anytls_go.Limiter.{
  Bucket, Limits, wait_then, wait_loop, wait_write, write_then, write_loop, write_unlimited,
}

unfoldable pub sum : List ℕ → ℕ
sum [] = 0
sum (n ∷ ns) = n + sum ns

abbrev pub IsChunk : ℕ → ℕ → Type 0
IsChunk burst n = (0 < n) × (n ≤ burst)

module _ {ℓ} {W : Type ℓ} (net : Limits W) where
  -- Waiting for one chunk after the other, up to the first that fails.
  unfoldable pub wait_all : List ℕ → W → W × Option Error
  wait_all [] w = (w, none)
  wait_all (n ∷ ns) w = wait_then net (net.wait_n n w) (wait_all ns)

  -- Writing one piece after the other, with the number of bytes of those written.
  unfoldable pub write_all : List Bytes → ℕ → W → W × ℕ × Option Error
  write_all [] written w = (w, written, none)
  write_all (p ∷ ps) written w = write_then net written (net.write p w) (write_all ps)

  waits :
      (f burst n : ℕ)
      → 0 < burst
      → n ≤ f
      → (ns : List ℕ) × All (IsChunk burst) ns
        × (sum ns ≡ n)
        × ((w : W) → wait_loop net f burst n w ≡ wait_all ns w)
  unfolding wait_loop wait_all sum
  waits zero burst n p h = ([], tt, omega arith, λ w. refl)
  waits (suc f) burst n p h = elim (Bool-cases (n == 0)) [
    | inl e ↦ (
      [],
      tt,
      sym ((==_iff n 0).0 e),
      λ w.
          ap
            (λ b.
              if b
              then (w, none)
              else wait_then net (net.wait_n (min n burst) w)
                  (wait_loop net f burst (n - min n burst)))
            e,
    )
    | inr e ↦
        let some_left : 0 < n = ground arith in
        let (ns, chunks, total, same) = waits f burst (n - min n burst) p (omega arith) in
        (
          min n burst ∷ ns,
          ((omega arith, omega arith), chunks),
          omega arith,
          λ w.
              ap
                (λ b.
                  if b
                  then (w, none)
                  else wait_then net (net.wait_n (min n burst) w)
                      (wait_loop net f burst (n - min n burst)))
                e
              ∙ ap (λ k. wait_then net (net.wait_n (min n burst) w) k) (fun_ext same),
        )
  ]

  abbrev pub IsPiece : ℕ → Bytes → Type 0
  IsPiece burst p = IsChunk burst (length p)

  writes :
      (f burst : ℕ) (b : Bytes)
      → 0 < burst
      → length b ≤ f
      → (ps : List Bytes) × All (IsPiece burst) ps
        × (concat ps ≡ b)
        × ((written : ℕ) (w : W) → write_loop net f burst b written w ≡ write_all ps written w)
  unfolding write_loop write_all
  writes zero burst b p h = ([], tt, sym (length-zero b (omega arith)), λ written w. refl)
  writes (suc f) burst b p h = elim (Bool-cases (length b == 0)) [
    | inl e ↦ (
      [],
      tt,
      sym (length-zero b ((==_iff (length b) 0).0 e)),
      λ written w.
          ap
            (λ c.
              if c
              then (w, written, none)
              else write_then net written (net.write (take (min (length b) burst) b) w)
                  (write_loop net f burst (drop (min (length b) burst) b)))
            e,
    )
    | inr e ↦
        let chunk = min (length b) burst in
        let some_left : 0 < length b = ground arith in
        let (ps, pieces, whole, same) =
          writes f burst (drop chunk b) p (omega (arith, length-drop chunk b)) in
        (
          take chunk b ∷ ps,
          ((omega (arith, length-take chunk b), omega (arith, length-take chunk b)), pieces),
          ap (λ x. take chunk b ++ x) whole ∙ take-append-drop chunk b,
          λ written w.
              ap
                (λ c.
                  if c
                  then (w, written, none)
                  else write_then net written (net.write (take chunk b) w)
                      (write_loop net f burst (drop chunk b)))
                e
              ∙ ap (λ k. write_then net written (net.write (take chunk b) w) k)
                  (fun_ext (λ total. fun_ext (same total))),
        )
  ]

module _ {ℓ} {W : Type ℓ} (net : Limits W) where
  -- A wait for n tokens of a bucket with a burst that is not 0 asks for them in chunks, none of them
  -- empty or larger than the burst, that add up to n, and stops at the first that fails.
  pub wait_write-chunks :
      (up : Bucket) (n : ℕ)
      → 0 < up.burst
      → (ns : List ℕ) × All (IsChunk up.burst) ns
        × (sum ns ≡ n)
        × ((w : W) → wait_write net (some up) n w ≡ wait_all net ns w)
  unfolding wait_write
  wait_write-chunks up n p = waits net n up.burst n p (omega arith)

  -- A write to a bucket with a burst that is not 0 hands the connection the bytes in pieces, in
  -- their order, none empty or larger than the burst, up to the first that fails.
  pub write_unlimited-pieces :
      (up : Bucket) (b : Bytes)
      → 0 < up.burst
      → (ps : List Bytes) × All (IsPiece net up.burst) ps
        × (concat ps ≡ b)
        × ((w : W) → write_unlimited net (some up) b w ≡ write_all net ps 0 w)
  unfolding write_unlimited
  write_unlimited-pieces up b p =
      let (ps, pieces, whole, same) = writes net (length b) up.burst b p (omega arith) in
      (ps, pieces, whole, same 0)
