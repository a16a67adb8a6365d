-- ===== src/Auth/Limit.antt =====
-- auth/limit.go: the bound on the calls that run in the backend at one time. Which of the calls that
-- wait goes on is the scheduler's choice, and so is when a call's timer runs out.
use anytls_go.Common.{
  ℕ, suc, ◌-◌, ◌≤◌, ◌<◌, List, [], ◌∷◌, ◌++◌, Option, none, some, Bool, true, false, length,
  length-append, ltb, if◌then◌else◌, backend_busy, ◌≡◌, refl, ap, subst, arith, ltb→lt, lt→ltb,
}
use anytls_go.Auth.{Answer}

-- A call of Authenticate by its number
abbrev Call : Type 0
Call = ℕ

-- LimitedAuthenticator: the capacity of its channel and the tokens in it, the calls in the first
-- select, those in the inner Authenticate, and what returned
pub record LimitedAuthenticator : Type 0 where
  pub capacity : ℕ
  pub slots : ℕ
  pub waiting : List Call
  pub inside : List Call
  pub returned : List (Call × Answer)

unfoldable pub new_limited_authenticator : ℕ → LimitedAuthenticator
new_limited_authenticator max_concurrent = record {
  capacity = max_concurrent;
  slots = 0;
  waiting = [];
  inside = [];
  returned = [];
}

-- The send of a token, none while the channel is full
unfoldable pub enter : Call → List Call → LimitedAuthenticator → Option LimitedAuthenticator
enter c others l =
    if ltb l.slots l.capacity
    then some (record l { slots = suc l.slots; waiting = others; inside = c ∷ l.inside })
    else none

abbrev pub busy : Answer
busy = record { id = []; accepted = false; failure = some backend_busy }

unfoldable pub give_up : Call → List Call → LimitedAuthenticator → LimitedAuthenticator
give_up c others l = record l { waiting = others; returned = (c, busy) ∷ l.returned }

-- The inner call returned, and the deferred receive takes a token.
unfoldable pub leave : Call → List Call → Answer → LimitedAuthenticator → LimitedAuthenticator
leave c others answer l = record l {
  slots = l.slots - 1;
  inside = others;
  returned = (c, answer) ∷ l.returned;
}

pub data Step (l : LimitedAuthenticator) : LimitedAuthenticator → Type 0 where
  calls : (c : Call) → Step l (record l { waiting = c ∷ l.waiting })
  enters :
      (c : Call) (before after : List Call) (m : LimitedAuthenticator)
      → l.waiting ≡ before ++ c ∷ after
      → enter c (before ++ after) l ≡ some m
      → Step l m
  times_out :
      (c : Call) (before after : List Call)
      → l.waiting ≡ before ++ c ∷ after
      → Step l (give_up c (before ++ after) l)
  leaves :
      (c : Call) (before after : List Call) (answer : Answer)
      → l.inside ≡ before ++ c ∷ after
      → Step l (leave c (before ++ after) answer l)

pub data Reach (l : LimitedAuthenticator) : LimitedAuthenticator → Type 0 where
  here : Reach l l
  next : {m n : LimitedAuthenticator} → Reach l m → Step m n → Reach l n

-- As many tokens as calls inside, and never more than the channel holds
pub record IsBounded (max_concurrent : ℕ) (l : LimitedAuthenticator) : Type 0 where
  pub capacity_stays : l.capacity ≡ max_concurrent
  pub token_each : l.slots ≡ length l.inside
  pub below : length l.inside ≤ max_concurrent

enter-IsBounded :
    (n : ℕ) (l m : LimitedAuthenticator) (c : Call) (others : List Call) (b : Bool)
    → ltb l.slots l.capacity ≡ b
    → (if b
        then some (record l { slots = suc l.slots; waiting = others; inside = c ∷ l.inside })
        else none)
      ≡ some m
    → IsBounded n l
    → IsBounded n m
enter-IsBounded n l m c others false e h v = absurd cc
enter-IsBounded n l m c others true e h v =
    let same : record l { slots = suc l.slots; waiting = others; inside = c ∷ l.inside } ≡ m = cc in
    subst (IsBounded n) same (record {
      capacity_stays = v.capacity_stays;
      token_each = omega (arith, v.token_each);
      below =
          let free = ltb→lt l.slots l.capacity e in
          omega (arith, v.token_each, v.capacity_stays, free);
    })

step-IsBounded : {l m : LimitedAuthenticator} (n : ℕ) → Step l m → IsBounded n l → IsBounded n m
unfolding enter give_up leave
step-IsBounded n (calls c) v = record {
  capacity_stays = v.capacity_stays;
  token_each = v.token_each;
  below = v.below;
}
step-IsBounded {l} n (enters c before after m e h) v =
    enter-IsBounded n l m c (before ++ after) (ltb l.slots l.capacity) refl h v
step-IsBounded n (times_out c before after e) v = record {
  capacity_stays = v.capacity_stays;
  token_each = v.token_each;
  below = v.below;
}
step-IsBounded n (leaves c before after answer e) v =
    let sizes = ap length e in
    record {
      capacity_stays = v.capacity_stays;
      token_each = omega (
        arith,
        v.token_each,
        sizes,
        length-append before (c ∷ after),
        length-append before after,
      );
      below =
          omega
            (arith, v.below, sizes, length-append before (c ∷ after), length-append before after);
    }

run-IsBounded : {l m : LimitedAuthenticator} (n : ℕ) → Reach l m → IsBounded n l → IsBounded n m
run-IsBounded n here v = v
run-IsBounded n (next r x) v = step-IsBounded n x (run-IsBounded n r v)

-- A call that waits gets a slot exactly while one is free.
abbrev pub Enters : ℕ → LimitedAuthenticator → Type 0
Enters max_concurrent l =
    (c : Call) (before after : List Call)
    → l.waiting ≡ before ++ c ∷ after
    → length l.inside < max_concurrent
    → (m : LimitedAuthenticator) × (enter c (before ++ after) l ≡ some m)
      × (m.inside ≡ c ∷ l.inside)

bounded-Enters : (n : ℕ) (l : LimitedAuthenticator) → IsBounded n l → Enters n l
unfolding enter
bounded-Enters n l v c before after e room =
    let free = lt→ltb l.slots l.capacity (omega (arith, v.token_each, v.capacity_stays, room)) in
    (
      record l { slots = suc l.slots; waiting = before ++ after; inside = c ∷ l.inside },
      ap
          (λ b.
            if b
            then some
                (record l { slots = suc l.slots; waiting = before ++ after; inside = c ∷ l.inside })
            else none)
          free,
      refl,
    )

-- Whatever calls arrive, time out and return, in any order: at most `max_concurrent` calls are in
-- the backend, each holds one token of the channel, and while fewer are, any call that waits can
-- enter.
pub Reach-new-IsBounded :
    (max_concurrent : ℕ) (l : LimitedAuthenticator)
    → Reach (new_limited_authenticator max_concurrent) l
    → IsBounded max_concurrent l × Enters max_concurrent l
Reach-new-IsBounded n l r =
    let v = run-IsBounded n r (
      unfold new_limited_authenticator in
      record { capacity_stays = refl; token_each = refl; below = omega arith }) in
    (v, bounded-Enters n l v)
