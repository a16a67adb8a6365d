-- ===== src/Session/Padded.antt =====
-- What a padded write puts on the wire: the payload, then padding frames, whatever the sizes are.
use anytls_go.Common.{
  ℕ, ◌+◌, ◌-◌, ◌≤◌, ◌≡◌, refl, sym, ap, ◌∙◌, Bytes, List, [], ◌∷◌, ◌++◌, Bool, length, take, drop,
  ltb, ◌==◌, Result, ok, err, M, chain, All, arith, append_assoc, append-nil, take-append-drop,
  length-drop, ltb→lt, ltb→le, length-zero, if_elim, subst,
}
use anytls_go.Padding.{Size, check_mark, size}
use anytls_go.Session.Conn.{Conn}
use anytls_go.Session.Write.{waste_frame, fill, pad_loop, write_rest, send_padded}
use anytls_go.Session.Wire.{wire, wastes, Grows, write_fn-Grows, write_fn-counted}

abbrev pub AtMost : ℕ → Size → Type 0
AtMost m check_mark = Unit {0}
AtMost m (size l) = l ≤ m

-- The payload that the loop leaves is what the wire still lacks.
abbrev Leaves : ℕ → Bytes → Result (Bytes × ℕ) → Type 0
Leaves total rest (ok (b, n)) = (rest ≡ b) × (n + length b ≡ total)
Leaves total rest (err e) = Unit {0}

record Pads (m total : ℕ) (w b : Bytes) (x : Conn × Result (Bytes × ℕ)) : Type 0 where
  ws : List ℕ
  bounded : All (λ l. l ≤ m) ws
  rest : Bytes
  grown : wire x.0 ++ rest ≡ w ++ (b ++ wastes ws)
  left : Leaves total rest x.1

stop-Pads : (m n : ℕ) (b : Bytes) (c : Conn) → Pads m (n + length b) (wire c) b (c, ok (b, n))
stop-Pads m n b c = record {
  ws = [];
  bounded = tt;
  rest = b;
  grown = ap (λ x. wire c ++ x) (sym (append-nil b));
  left = (refl, refl);
}

chain-Pads :
    (m total : ℕ) (w p q : Bytes) (x : Conn × Result ℕ) (k : M Conn (Bytes × ℕ))
    → Grows w p x
    → ((c : Conn) → Pads m total (wire c) q (k c))
    → Pads m total w (p ++ q) (chain x (λ _. k))
chain-Pads m total w p q (c, ok a) k g next =
    let whole : wire c ≡ w ++ p =
      sym (append-nil _) ∙ ap (λ r. wire c ++ r) (sym (g.complete tt)) ∙ g.grown in
    let n = next c in
    record {
      ws = n.ws;
      bounded = n.bounded;
      rest = n.rest;
      grown =
          n.grown
          ∙ ap (λ v. v ++ (q ++ wastes n.ws)) whole
          ∙ append_assoc w p _
          ∙ ap (λ v. w ++ v) (sym (append_assoc p q _));
      left = n.left;
    }
chain-Pads m total w p q (c, err e) k g next = record {
  ws = [];
  bounded = tt;
  rest = g.rest ++ q;
  grown =
      sym (append_assoc (wire c) g.rest q)
      ∙ ap (λ x. x ++ q) g.grown
      ∙ append_assoc w p q
      ∙ ap (λ v. w ++ v) (sym (append-nil _));
  left = tt;
}

absorb :
    (m total l : ℕ) (w b : Bytes) (x : Conn × Result (Bytes × ℕ))
    → l ≤ m
    → Pads m total w (b ++ waste_frame l) x
    → Pads m total w b x
absorb m total l w b x h p = record {
  ws = l ∷ p.ws;
  bounded = (h, p.bounded);
  rest = p.rest;
  grown = p.grown ∙ ap (λ v. w ++ v) (append_assoc b (waste_frame l) _);
  left = p.left;
}

fill-Pads :
    (m total l : ℕ) (w b : Bytes) (x : Conn × Result (Bytes × ℕ))
    → l ≤ m
    → Pads m total w (fill l b) x
    → Pads m total w b x
unfolding fill
fill-Pads m total l w b x h =
    if_elim (λ v. Pads m total w v x → Pads m total w b x) (ltb 0 (l - length b - 7)) _ _
      (λ e. absorb m total (l - length b - 7) w b x (omega arith)) (λ e p. p)

-- A round that writes p, after which q is left.
round-Pads :
    (m total total' : ℕ) (w p q b : Bytes) (x : Conn × Result ℕ) (k : M Conn (Bytes × ℕ))
    → p ++ q ≡ b
    → total' ≡ total
    → Grows w p x
    → ((c : Conn) → Pads m total' (wire c) q (k c))
    → Pads m total w b (chain x (λ _. k))
round-Pads m total total' w p q b x k e t g next =
    subst (λ v. Pads m total w v (chain x (λ _. k))) e
      (chain-Pads m total w p q x k g (λ c. subst (λ v. Pads m v (wire c) q (k c)) t (next c)))

pad_loop-Pads :
    (m : ℕ) (u : Bool) (ls : List Size) (b : Bytes) (n : ℕ) (c : Conn)
    → All (AtMost m) ls
    → Pads m (n + length b) (wire c) b (pad_loop u ls b n c)
unfolding pad_loop
pad_loop-Pads m u [] b n c h = stop-Pads m n b c
pad_loop-Pads m u (check_mark ∷ ls) b n c h =
    if_elim (Pads m (n + length b) (wire c) b) (length b == 0) _ _ (λ e. stop-Pads m n b c)
      (λ e. pad_loop-Pads m u ls b n c h.1)
pad_loop-Pads m u (size l ∷ ls) b n c h =
    let P = Pads m (n + length b) (wire c) b in
    if_elim P (ltb l (length b)) _ _
      (λ e.
        round-Pads m _ _ (wire c) (take l b) (drop l b) b _ (pad_loop u ls (drop l b) (n + l))
          (take-append-drop l b) (omega (arith, length-drop l b, ltb→lt l (length b) e))
          (write_fn-Grows u (take l b) c) (λ c'. pad_loop-Pads m u ls (drop l b) (n + l) c' h.1))
      (λ e.
        if_elim P (ltb 0 (length b)) _ _
          (λ f. fill-Pads m _ l (wire c) b _ h.0 (
            round-Pads m _ _ (wire c) (fill l b) [] (fill l b) _ (pad_loop u ls [] (n + length b))
              (append-nil _) (omega arith) (write_fn-Grows u (fill l b) c)
              (λ c'. pad_loop-Pads m u ls [] (n + length b) c' h.1)))
          (λ f.
            let empty : length b ≡ 0 = omega (arith, ltb→le 0 (length b) f) in
            absorb m _ l (wire c) b _ h.0 (
              round-Pads m _ _ (wire c) (waste_frame l) [] (b ++ waste_frame l) _
                (pad_loop u ls [] n)
                (append-nil _ ∙ ap (λ v. v ++ waste_frame l) (sym (length-zero b empty)))
                (omega arith) (write_fn-Grows u (waste_frame l) c)
                (λ c'. pad_loop-Pads m u ls [] n c' h.1))))

-- What a padded write of b sends, and the count that it returns.
pub record Sends (m : ℕ) (w b : Bytes) (x : Conn × Result ℕ) : Type 0 where
  pub ws : List ℕ
  pub bounded : All (λ l. l ≤ m) ws
  pub grows : Grows w (b ++ wastes ws) x
  pub counted : (n : ℕ) → x.1 ≡ ok n → n ≡ length b

-- The last write takes what the loop left.
last-Sends :
    (m n : ℕ) (w b : Bytes) (c : Conn) (b' : Bytes) (x : Conn × Result ℕ)
    → Pads m (length b) w b (c, ok (b', n))
    → Grows (wire c) b' x
    → ((k : ℕ) → x.1 ≡ ok k → k ≡ length b')
    → Sends m w b (chain x (λ k c'. (c', ok (n + k))))
last-Sends m n w b c b' (c', ok k) p g count = record {
  ws = p.ws;
  bounded = p.bounded;
  grows = record {
    rest = g.rest;
    grown = g.grown ∙ ap (λ v. wire c ++ v) (sym p.left.0) ∙ p.grown;
    complete = g.complete;
  };
  counted = λ t h. ground (arith, count k refl, p.left.1);
}
last-Sends m n w b c b' (c', err e) p g count = record {
  ws = p.ws;
  bounded = p.bounded;
  grows = record {
    rest = g.rest;
    grown = g.grown ∙ ap (λ v. wire c ++ v) (sym p.left.0) ∙ p.grown;
    complete = g.complete;
  };
  counted = λ t h. cc;
}

write_rest-Sends :
    (m : ℕ) (u : Bool) (w b : Bytes) (x : Conn × Result (Bytes × ℕ))
    → Pads m (length b) w b x
    → Sends m w b (chain x (write_rest u))
write_rest-Sends m u w b (c, err e) p = record {
  ws = p.ws;
  bounded = p.bounded;
  grows = record { rest = p.rest; grown = p.grown; complete = λ h. absurd h };
  counted = λ n h. cc;
}
write_rest-Sends m u w b (c, ok (b', n)) p =
    if_elim (Sends m w b) (length b' == 0) _ _
      (λ e.
        let none_left : length b' ≡ 0 = ground arith in
        record {
          ws = p.ws;
          bounded = p.bounded;
          grows = record {
            rest = p.rest;
            grown = p.grown;
            complete = λ h. p.left.0 ∙ length-zero b' none_left;
          };
          counted = λ t h. ground (arith, p.left.1);
        })
      (λ e. last-Sends m n w b c b' _ p (write_fn-Grows u b' c) (write_fn-counted u b' c))

-- With sizes that are all at most m, a padded write of b puts b itself on the wire, in order and
-- unbroken, and behind it only padding frames, none longer than m; if a Write of the connection
-- fails, what went out is a beginning of that, and without a failure it is all of it, and the
-- count that is returned is the length of b.
pub send_padded-Sends :
    (m : ℕ) (u : Bool) (sizes : List Size) (b : Bytes) (c : Conn)
    → All (AtMost m) sizes
    → Sends m (wire c) b (send_padded u sizes b c)
unfolding send_padded
send_padded-Sends m u sizes b c h = write_rest-Sends m u (wire c) b _ (
    subst (λ t. Pads m t (wire c) b (pad_loop u sizes b 0 c)) (omega arith)
      (pad_loop-Pads m u sizes b 0 c h))
