-- ===== src/Resolver/Pool/Owned.antt =====
-- No two queries share a connection, and none uses one that was closed.
use anytls_go.Common.{
  ℕ, ◌+◌, ◌≤◌, List, [], ◌∷◌, ◌++◌, some, Bool, true, false, length, length-append, ltb, ltb→lt,
  ◌==◌, if◌then◌else◌, if_elim, ◌≡◌, refl, ap, subst, arith,
}
use anytls_go.Resolver.Pool.{
  max_idle_dns_conns, ConnPool, new_conn_pool, take_first, get, put, dial, exchange_on, Step, takes,
  dials, ends, Reach, here, next,
}

-- How often a connection is in a list
unfoldable pub times : ℕ → List ℕ → ℕ
times c [] = 0
times c (x ∷ xs) = (if x == c then 1 else 0) + times c xs

times-append : (c : ℕ) (xs ys : List ℕ) → times c (xs ++ ys) ≡ times c xs + times c ys
unfolding times
times-append c [] ys = omega arith
times-append c (x ∷ xs) ys = omega (arith, times-append c xs ys)

-- Where a connection is
abbrev pub places : ℕ → ConnPool → ℕ
places c p = times c p.idle + times c p.busy + times c p.closed

pub record IsOwned (p : ConnPool) : Type 0 where
  pub bounded : length p.idle ≤ max_idle_dns_conns
  pub once : (c : ℕ) → places c p ≡ (if ltb c p.dialed then 1 else 0)

taken-IsOwned :
    (p : ConnPool) (ids : List ℕ) (c : ℕ) (q : ConnPool)
    → p.idle ≡ ids
    → take_first p ids ≡ some (c, q)
    → IsOwned p
    → IsOwned q
taken-IsOwned p [] c q e h v = absurd cc
taken-IsOwned p (x ∷ rest) c q e h v =
    let same : record p { idle = rest; busy = x ∷ p.busy } ≡ q = cc in
    subst IsOwned same (record {
      bounded = let size = ap length e in omega (arith, v.bounded, size);
      once = λ d.
          let now = v.once d in
          let moved = ap (times d) e in unfold times in omega (arith, now, moved);
    })

put-IsOwned :
    (p : ConnPool) (c : ℕ) (before after : List ℕ)
    → p.busy ≡ before ++ c ∷ after
    → IsOwned p
    → IsOwned (put c (before ++ after) p)
unfolding put times
put-IsOwned p c before after e v =
    if_elim IsOwned (ltb (length p.idle) max_idle_dns_conns) _ _
      (λ room. record {
        bounded =
            omega (
              arith,
              ltb→lt (length p.idle) max_idle_dns_conns room,
              length-append p.idle (c ∷ []),
            );
        once = λ d. omega (
          arith,
          v.once d,
          ap (times d) e,
          times-append d before (c ∷ after),
          times-append d before after,
          times-append d p.idle (c ∷ []),
        );
      })
      (λ full. record {
        bounded = v.bounded;
        once = λ d. omega (
          arith,
          v.once d,
          ap (times d) e,
          times-append d before (c ∷ after),
          times-append d before after,
        );
      })

exchange-IsOwned :
    (good : Bool) (p : ConnPool) (c : ℕ) (before after : List ℕ)
    → p.busy ≡ before ++ c ∷ after
    → IsOwned p
    → IsOwned (exchange_on good c (before ++ after) p)
unfolding exchange_on times
exchange-IsOwned true p c before after e v = put-IsOwned p c before after e v
exchange-IsOwned false p c before after e v = record {
  bounded = v.bounded;
  once = λ d. omega (
    arith,
    v.once d,
    ap (times d) e,
    times-append d before (c ∷ after),
    times-append d before after,
  );
}

dial-IsOwned : (p : ConnPool) → IsOwned p → IsOwned (dial p)
unfolding dial times
dial-IsOwned p v = record { bounded = v.bounded; once = λ d. ground (arith, v.once d) }

step-IsOwned : {p q : ConnPool} → Step p q → IsOwned p → IsOwned q
unfolding get
step-IsOwned {p} (takes c r e) v = taken-IsOwned p p.idle c r refl e v
step-IsOwned {p} dials v = dial-IsOwned p v
step-IsOwned {p} (ends good c before after e) v = exchange-IsOwned good p c before after e v

run-IsOwned : {p q : ConnPool} → Reach p q → IsOwned p → IsOwned q
run-IsOwned here v = v
run-IsOwned (next r x) v = step-IsOwned x (run-IsOwned r v)

-- Whatever queries run at one time, with errors and timeouts: at most 8 connections are idle, and
-- every connection that was dialed is idle, owned by one query, or closed, and in one of these
-- places once; so no two queries share a connection and none gets one that was closed.
pub Reach-new-IsOwned : (p : ConnPool) → Reach new_conn_pool p → IsOwned p
Reach-new-IsOwned p r =
    run-IsOwned r (record { bounded = omega arith; once = λ d. unfold times in ground arith })
