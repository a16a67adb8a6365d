-- ===== src/Pipe/Timers.antt =====
-- The deadlines of a pipe never close a channel twice and never wait for ever.
use anytls_go.Common.{
  Option, none, some, Bool, true, false, not, length, ◌==◌, if_elim, if◌then◌else◌, Error,
  closed_pipe, ◌≡◌, refl, sym, ap, ◌∙◌, subst,
}
use anytls_go.Pipe.Deadline.{
  Moment, zero_time, past, future, Timer, nil, running, expired, finished, PipeDeadline,
  close_cancel, fire, stop_case, set_case, set,
}
use anytls_go.Pipe.{
  Pipe, close_read, close_write, put_read, put_write, set_read_deadline, set_write_deadline, System,
  new_system, settle, Step, Reach, here, next, read_enters, read_closed, read_late, write_enters,
  locks, hands_over, counts, write_closed, write_late, closes_read, closes_write, sets_read,
  sets_write, read_expires, read_fires, write_expires, write_fires, Writer, counted,
}

-- The channel is closed by a timer that is done, and not before.
abbrev pub Matches : Timer → Bool → Type 0
Matches nil c = Unit
Matches running c = c ≡ false
Matches expired c = c ≡ false
Matches finished c = c ≡ true

pub record IsTimed (d : PipeDeadline) : Type 0 where
  pub no_panic : d.panicked ≡ false
  pub matches : Matches d.timer d.cancelled

abbrev pub is_past : Moment → Bool
is_past zero_time = false
is_past past = true
is_past future = false

-- Set returns, and the channel is closed for a time that has passed only.
pub record SetsTo (t : Moment) (o : Option PipeDeadline) : Type 0 where
  pub after : PipeDeadline
  pub returns : o ≡ some after
  pub timed : IsTimed after
  pub closed_if_past : after.cancelled ≡ is_past t

stop-IsTimed :
    (r : Timer) (d : PipeDeadline)
    → d.timer ≡ r
    → IsTimed d
    → (e : PipeDeadline) × (stop_case r d ≡ some e) × (e.panicked ≡ false) × (e.timer ≡ nil)
stop-IsTimed nil d e v = (record d { timer = nil }, refl, v.no_panic, refl)
stop-IsTimed running d e v = (record d { timer = nil }, refl, v.no_panic, refl)
stop-IsTimed expired d e v =
    let c = subst (λ r. Matches r d.cancelled) e v.matches in
    (
      record (fire d) { timer = nil },
      refl,
      ap (λ b. (if b then record d { panicked = true } else record d { cancelled = true }).panicked)
            c
          ∙ v.no_panic,
      refl,
    )
stop-IsTimed finished d e v =
    let c = subst (λ r. Matches r d.cancelled) e v.matches in
    (
      record d { timer = nil },
      ap (λ b. if b then some (record d { timer = nil }) else none) c,
      v.no_panic,
      refl,
    )

past-SetsTo :
    (d : PipeDeadline) (c : Bool)
    → d.cancelled ≡ c
    → d.panicked ≡ false
    → d.timer ≡ nil
    → SetsTo past (some (if not c then close_cancel d else d))
past-SetsTo d true e p n = record {
  after = d;
  returns = refl;
  timed = record { no_panic = p; matches = subst (λ r. Matches r d.cancelled) (sym n) tt };
  closed_if_past = e;
}
past-SetsTo d false e p n = record {
  after = close_cancel d;
  returns = refl;
  timed =
      subst IsTimed
        (sym
          (ap (λ b. if b then record d { panicked = true } else record d { cancelled = true }) e))
        (record { no_panic = p; matches = subst (λ r. Matches r true) (sym n) tt });
  closed_if_past =
      ap
        (λ b. (if b then record d { panicked = true } else record d { cancelled = true }).cancelled)
        e;
}

set_case-SetsTo :
    (t : Moment) (d : PipeDeadline)
    → d.panicked ≡ false
    → d.timer ≡ nil
    → SetsTo t (set_case t (some d))
set_case-SetsTo zero_time d p n = record {
  after = record d { cancelled = false };
  returns = refl;
  timed = record { no_panic = p; matches = subst (λ r. Matches r false) (sym n) tt };
  closed_if_past = refl;
}
set_case-SetsTo past d p n = past-SetsTo d d.cancelled refl p n
set_case-SetsTo future d p n = record {
  after = record d { cancelled = false; timer = running };
  returns = refl;
  timed = record { no_panic = p; matches = refl };
  closed_if_past = refl;
}

set-SetsTo : (t : Moment) (d : PipeDeadline) → IsTimed d → SetsTo t (set t d)
unfolding set
set-SetsTo t d v =
    let (e, stops, p, n) = stop-IsTimed d.timer d refl v in
    subst (λ o. SetsTo t (set_case t o)) (sym stops) (set_case-SetsTo t e p n)

fire-IsTimed : (d : PipeDeadline) → d.timer ≡ expired → IsTimed d → IsTimed (fire d)
fire-IsTimed d e v =
    let c = subst (λ r. Matches r d.cancelled) e v.matches in
    let stays : fire d ≡ record d { cancelled = true; timer = finished } =
      ap
        (λ b. record (if b then record d { panicked = true } else record d { cancelled = true }) {
          timer = finished;
        })
        c in
    subst IsTimed (sym stays) (record { no_panic = v.no_panic; matches = refl })

expire-IsTimed :
    (d : PipeDeadline) → d.timer ≡ running → IsTimed d → IsTimed (record d { timer = expired })
expire-IsTimed d e v = record {
  no_panic = v.no_panic;
  matches = subst (λ r. Matches r d.cancelled) e v.matches;
}

pub record PipeIsTimed (p : Pipe) : Type 0 where
  pub read : IsTimed p.read_deadline
  pub write : IsTimed p.write_deadline

put_read-IsTimed :
    (p q : Pipe) (e : Option Error) (o : Option PipeDeadline) (t : Moment)
    → SetsTo t o
    → put_read p o ≡ some (q, e)
    → PipeIsTimed p
    → PipeIsTimed q
put_read-IsTimed p q e o t h r v =
    let lands : put_read p (some h.after) ≡ some (q, e) = sym (ap (put_read p) h.returns) ∙ r in
    let same : record p { read_deadline = h.after } ≡ q = cc in
    subst PipeIsTimed same (record { read = h.timed; write = v.write })

put_write-IsTimed :
    (p q : Pipe) (e : Option Error) (o : Option PipeDeadline) (t : Moment)
    → SetsTo t o
    → put_write p o ≡ some (q, e)
    → PipeIsTimed p
    → PipeIsTimed q
put_write-IsTimed p q e o t h r v =
    let lands : put_write p (some h.after) ≡ some (q, e) = sym (ap (put_write p) h.returns) ∙ r in
    let same : record p { write_deadline = h.after } ≡ q = cc in
    subst PipeIsTimed same (record { read = v.read; write = h.timed })

-- Behind the check for done
guard-IsTimed :
    (p q : Pipe) (e x : Option Error) (b : Bool) (r : Option (Pipe × Option Error))
    → (r ≡ some (q, e) → PipeIsTimed q)
    → (if b then some (p, x) else r) ≡ some (q, e)
    → PipeIsTimed p
    → PipeIsTimed q
guard-IsTimed p q e x true r f h v = let same : p ≡ q = cc in subst PipeIsTimed same v
guard-IsTimed p q e x false r f h v = f h

set_read-IsTimed :
    (t : Moment) (p q : Pipe) (e : Option Error)
    → set_read_deadline t p ≡ some (q, e)
    → PipeIsTimed p
    → PipeIsTimed q
unfolding set_read_deadline
set_read-IsTimed t p q e h v =
    guard-IsTimed p q e (some closed_pipe) p.done (put_read p (set t p.read_deadline))
      (λ r.
        put_read-IsTimed p q e (set t p.read_deadline) t (set-SetsTo t p.read_deadline v.read) r v)
      h v

set_write-IsTimed :
    (t : Moment) (p q : Pipe) (e : Option Error)
    → set_write_deadline t p ≡ some (q, e)
    → PipeIsTimed p
    → PipeIsTimed q
unfolding set_write_deadline
set_write-IsTimed t p q e h v =
    guard-IsTimed p q e (some closed_pipe) p.done (put_write p (set t p.write_deadline))
      (λ r.
        put_write-IsTimed p q e (set t p.write_deadline) t (set-SetsTo t p.write_deadline v.write) r
          v)
      h v

settle_pipe : (w : Writer) (s : System) → (settle w s).pipe ≡ s.pipe
unfolding settle
settle_pipe w s =
    if_elim (λ (x : System). x.pipe ≡ s.pipe) (length w.left == 0) _ _ (λ e. refl) (λ e. refl)

step-IsTimed : {s t : System} → Step s t → PipeIsTimed s.pipe → PipeIsTimed t.pipe
unfolding close_read close_write
step-IsTimed {s} (read_enters choice size h) v = v
step-IsTimed {s} (read_closed before after size e h) v = v
step-IsTimed {s} (read_late before after size e h) v = v
step-IsTimed {s} (write_enters choice b h) v = v
step-IsTimed {s} (locks before after b e h) v = v
step-IsTimed {s} (hands_over w before after size at c e) v = v
step-IsTimed {s} (counts w k at c) v = subst PipeIsTimed (sym (settle_pipe (counted k w) s)) v
step-IsTimed {s} (write_closed w at c h) v = v
step-IsTimed {s} (write_late w at c h) v = v
step-IsTimed {s} (closes_read e) v = record { read = v.read; write = v.write }
step-IsTimed {s} (closes_write e) v = record { read = v.read; write = v.write }
step-IsTimed {s} (sets_read t p e h) v = set_read-IsTimed t s.pipe p e h v
step-IsTimed {s} (sets_write t p e h) v = set_write-IsTimed t s.pipe p e h v
step-IsTimed {s} (read_expires h) v = record {
  read = expire-IsTimed s.pipe.read_deadline h v.read;
  write = v.write;
}
step-IsTimed {s} (read_fires h) v = record {
  read = fire-IsTimed s.pipe.read_deadline h v.read;
  write = v.write;
}
step-IsTimed {s} (write_expires h) v = record {
  read = v.read;
  write = expire-IsTimed s.pipe.write_deadline h v.write;
}
step-IsTimed {s} (write_fires h) v = record {
  read = v.read;
  write = fire-IsTimed s.pipe.write_deadline h v.write;
}

run-IsTimed : {s t : System} → Reach s t → PipeIsTimed s.pipe → PipeIsTimed t.pipe
run-IsTimed here v = v
run-IsTimed (next r x) v = step-IsTimed x (run-IsTimed r v)

-- Whatever calls, deadlines and timers run on a new pipe, in any order: no closed channel of a
-- deadline was closed again, and setting either deadline at any time returns, with the channel
-- closed exactly if the time has passed.
pub Reach-new-SetsTo :
    (s : System) (t : Moment)
    → Reach new_system s
    → (s.pipe.read_deadline.panicked ≡ false)
      × (s.pipe.write_deadline.panicked ≡ false)
      × SetsTo t (set t s.pipe.read_deadline)
      × SetsTo t (set t s.pipe.write_deadline)
Reach-new-SetsTo s t r =
    let v = run-IsTimed r (record {
      read = record { no_panic = refl; matches = tt };
      write = record { no_panic = refl; matches = tt };
    }) in
    (
      v.read.no_panic,
      v.write.no_panic,
      set-SetsTo t s.pipe.read_deadline v.read,
      set-SetsTo t s.pipe.write_deadline v.write,
    )
