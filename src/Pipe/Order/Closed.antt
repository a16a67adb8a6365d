-- ===== src/Pipe/Order/Closed.antt =====
-- A pipe is done exactly if one of its ends has an error.
use anytls_go.Common.{
  Option, none, some, Bool, true, false, ◌||◌, closed_pipe, if◌then◌else◌, Error, ◌≡◌, refl, sym,
  ap, ◌∙◌, subst, arith,
}
use anytls_go.Pipe.Deadline.{PipeDeadline, Moment, set}
use anytls_go.Pipe.{
  store, Pipe, close_read, close_write, put_read, put_write, set_read_deadline, set_write_deadline,
}

abbrev pub given_error : Option Error → Bool
given_error none = false
given_error (some e) = true

-- What a pipe keeps
abbrev pub Closes : Pipe → Type 0
Closes p = p.done ≡ (given_error p.rerr || given_error p.werr)

or_yes : (b : Bool) → true ≡ (b || true)
or_yes b = ground arith

stored : (e : Error) (o : Option Error) → given_error (store e o) ≡ true
unfolding store
stored e none = refl
stored e (some x) = refl

pub close_read-Closes : (e : Option Error) (p : Pipe) → Closes (close_read e p)
unfolding close_read
close_read-Closes e p = sym (ap (λ b. b || given_error p.werr) (stored _ p.rerr))

pub close_write-Closes : (e : Option Error) (p : Pipe) → Closes (close_write e p)
unfolding close_write
close_write-Closes e p =
    or_yes (given_error p.rerr) ∙ sym (ap (λ b. given_error p.rerr || b) (stored _ p.werr))

put_read-Closes :
    (p q : Pipe) (e : Option Error)
    → (o : Option PipeDeadline) → put_read p o ≡ some (q, e)
    → Closes p
    → Closes q
put_read-Closes p q e none h c = absurd cc
put_read-Closes p q e (some d) h c =
    let same : record p { read_deadline = d } ≡ q = cc in subst Closes same c

put_write-Closes :
    (p q : Pipe) (e : Option Error)
    → (o : Option PipeDeadline) → put_write p o ≡ some (q, e)
    → Closes p
    → Closes q
put_write-Closes p q e none h c = absurd cc
put_write-Closes p q e (some d) h c =
    let same : record p { write_deadline = d } ≡ q = cc in subst Closes same c

-- What a deadline's setter leaves: the pipe with the refusal, or the pipe that `put` gives.
guard-Closes :
    (p q : Pipe) (e x : Option Error) (b : Bool) (r : Option (Pipe × Option Error))
    → (r ≡ some (q, e) → Closes p → Closes q)
    → (if b then some (p, x) else r) ≡ some (q, e)
    → Closes p
    → Closes q
guard-Closes p q e x true r f h c = let same : p ≡ q = cc in subst Closes same c
guard-Closes p q e x false r f h c = f h c

pub set_read-Closes :
    (t : Moment) (p q : Pipe) (e : Option Error)
    → set_read_deadline t p ≡ some (q, e)
    → Closes p
    → Closes q
unfolding set_read_deadline
set_read-Closes t p q e h c =
    guard-Closes p q e (some closed_pipe) p.done (put_read p (set t p.read_deadline))
      (put_read-Closes p q e (set t p.read_deadline)) h c

pub set_write-Closes :
    (t : Moment) (p q : Pipe) (e : Option Error)
    → set_write_deadline t p ≡ some (q, e)
    → Closes p
    → Closes q
unfolding set_write_deadline
set_write-Closes t p q e h c =
    guard-Closes p q e (some closed_pipe) p.done (put_write p (set t p.write_deadline))
      (put_write-Closes p q e (set t p.write_deadline)) h c
