-- ===== src/Pipe/Order.antt =====
-- The bytes that reads get are the bytes of the writes, in the order of the lock.
pub mod Closed
use anytls_go.Common.{
  ℕ, ◌≤◌, Bytes, List, [], ◌∷◌, ◌++◌, Option, none, some, ◌||◌, length, take, drop, min, ◌==◌,
  if_elim, Error, ◌≡◌, refl, sym, ap, ◌∙◌, subst, arith, All, All-append, concat, concat-append,
  map, append_assoc, append-nil, drop-drop, take_add, length-drop,
}
use anytls_go.Pipe.{
  Pipe, Writer, Returned, System, new_system, start_writer, finish, counted, settle, Step, Reach,
  here, next, read_enters, read_closed, read_late, write_enters, locks, hands_over, counts,
  write_closed, write_late, closes_read, closes_write, sets_read, sets_write, read_expires,
  read_fires, write_expires, write_fires,
}
use anytls_go.Pipe.Order.Closed.{
  given_error, Closes, close_read-Closes, close_write-Closes, set_read-Closes, set_write-Closes,
}

-- What a write that returned has handed over
abbrev pub accepted : Returned → Bytes
accepted (b, n, e) = take n b

abbrev taken : Option ℕ → Bytes → Bytes
taken none left = []
taken (some k) left = take k left

-- What the write that holds the lock has handed over so far
abbrev pub under_way : Option Writer → Bytes
under_way none = []
under_way (some w) = take w.n w.given ++ taken w.count w.left

-- A count is of bytes that exist, and a write without an error wrote all.
abbrev pub IsExact : Returned → Type 0
IsExact (b, n, e) = (n ≤ length b) × (e ≡ none → n ≡ length b)

abbrev CountIsValid : Option ℕ → Bytes → Type 0
CountIsValid none left = Unit
CountIsValid (some k) left = k ≤ length left

abbrev pub WriterIsValid : Option Writer → Type 0
WriterIsValid none = Unit
WriterIsValid (some w) =
    (w.left ≡ drop w.n w.given) × (w.n ≤ length w.given) × CountIsValid w.count w.left

pub record IsFaithful (s : System) : Type 0 where
  pub order : s.delivered ≡ concat (map accepted s.returned) ++ under_way s.writer
  pub exact : All IsExact s.returned
  pub writer_valid : WriterIsValid s.writer
  pub closed : s.pipe.done ≡ (given_error s.pipe.rerr || given_error s.pipe.werr)

map-append : (xs ys : List Returned) → map accepted (xs ++ ys) ≡ map accepted xs ++ map accepted ys
map-append [] ys = refl
map-append (x ∷ xs) ys = ap (◌∷◌ (accepted x)) (map-append xs ys)

-- All that was handed over when one more write has returned
return_order :
    (xs : List Returned) (r : Returned)
    → concat (map accepted (xs ++ r ∷ [])) ≡ concat (map accepted xs) ++ accepted r
return_order xs r =
    ap concat (map-append xs (r ∷ []))
    ∙ concat-append (map accepted xs) (accepted r ∷ [])
    ∙ ap (◌++◌ (concat (map accepted xs))) (append-nil (accepted r))

finish-IsFaithful :
    (s : System) (w : Writer) (e : Option Error)
    → s.delivered ≡ concat (map accepted s.returned) ++ take w.n w.given
    → IsFaithful s
    → IsExact (w.given, w.n, e)
    → IsFaithful (finish w e s)
finish-IsFaithful s w e o v x = record {
  order =
      o
      ∙ sym (
          append-nil (concat (map accepted (s.returned ++ (w.given, w.n, e) ∷ [])))
          ∙ return_order s.returned (w.given, w.n, e));
  exact = All-append IsExact s.returned _ v.exact (x, tt);
  writer_valid = tt;
  closed = v.closed;
}

settle-IsFaithful :
    (s : System) (w : Writer)
    → IsFaithful s
    → s.delivered ≡ concat (map accepted s.returned) ++ take w.n w.given
    → w.count ≡ none
    → w.left ≡ drop w.n w.given
    → w.n ≤ length w.given
    → IsFaithful (settle w s)
unfolding settle
settle-IsFaithful s w v o c l n =
    if_elim IsFaithful (length w.left == 0) _ _
      (λ e.
        let len = length-drop w.n w.given in
        let same = ap length l in finish-IsFaithful s w none o v (n, λ _. ground arith))
      (λ e. record {
        order =
            o
            ∙ ap (◌++◌ (concat (map accepted s.returned))) (
                sym (append-nil (take w.n w.given))
                ∙ ap (λ x. take w.n w.given ++ taken x w.left) (sym c));
        exact = v.exact;
        writer_valid = (l, n, subst (λ x. CountIsValid x w.left) (sym c) tt);
        closed = v.closed;
      })

counts-IsFaithful :
    (s : System) (w : Writer) (k : ℕ)
    → IsFaithful s
    → s.writer ≡ some w
    → w.count ≡ some k
    → IsFaithful (settle (counted k w) s)
counts-IsFaithful s w k v at c =
    let here_now = subst WriterIsValid at v.writer_valid in
    let fits = subst (λ x. CountIsValid x w.left) c here_now.2 in
    let sizes = ap length here_now.0 in
    settle-IsFaithful s (counted k w) v
      (v.order
        ∙ ap (◌++◌ (concat (map accepted s.returned))) (
            ap under_way at
            ∙ ap (λ x. take w.n w.given ++ taken x w.left) c
            ∙ ap (λ x. take w.n w.given ++ take k x) here_now.0
            ∙ sym (take_add w.n k w.given)))
      refl (ap (drop k) here_now.0 ∙ drop-drop w.n k w.given)
      (omega (arith, length-drop w.n w.given, sizes, fits, here_now.1))

-- Before a hand-over
offered :
    (s : System) (w : Writer)
    → IsFaithful s
    → s.writer ≡ some w
    → w.count ≡ none
    → s.delivered ≡ concat (map accepted s.returned) ++ take w.n w.given
offered s w v at c =
    v.order
    ∙ ap (◌++◌ (concat (map accepted s.returned))) (
        ap under_way at
        ∙ ap (λ x. take w.n w.given ++ taken x w.left) c
        ∙ append-nil (take w.n w.given))

hands_over-IsFaithful :
    (s : System) (w : Writer) (size : ℕ) (rest : List ℕ)
    → IsFaithful s
    → s.writer ≡ some w
    → w.count ≡ none
    → IsFaithful (record s {
      readers = rest;
      writer = some (record w { count = some (min size (length w.left)) });
      delivered = s.delivered ++ take (min size (length w.left)) w.left;
    })
hands_over-IsFaithful s w size rest v at c =
    let here_now = subst WriterIsValid at v.writer_valid in
    record {
      order =
          ap (λ x. x ++ take (min size (length w.left)) w.left) (offered s w v at c)
          ∙ append_assoc (concat (map accepted s.returned)) (take w.n w.given) _;
      exact = v.exact;
      writer_valid = (here_now.0, here_now.1, omega arith);
      closed = v.closed;
    }

-- A write that gives up between two hand-overs
gives_up-IsFaithful :
    (s : System) (w : Writer) (e : Error)
    → IsFaithful s
    → s.writer ≡ some w
    → w.count ≡ none
    → IsFaithful (finish w (some e) s)
gives_up-IsFaithful s w e v at c =
    let here_now = subst WriterIsValid at v.writer_valid in
    finish-IsFaithful s w (some e) (offered s w v at c) v (here_now.1, λ h. cc)

-- A change to the pipe alone
pipe-IsFaithful :
    (s : System) (p : Pipe) → IsFaithful s → Closes p → IsFaithful (record s { pipe = p })
pipe-IsFaithful s p v c = record {
  order = v.order;
  exact = v.exact;
  writer_valid = v.writer_valid;
  closed = c;
}

-- A step that leaves the writes and the bytes alone
quiet :
    (s : System) (rs : List ℕ) (ws : List Bytes)
    → IsFaithful s
    → IsFaithful (record s { readers = rs; waiting = ws })
quiet s rs ws v = record {
  order = v.order;
  exact = v.exact;
  writer_valid = v.writer_valid;
  closed = v.closed;
}

locks-IsFaithful :
    (s : System) (b : Bytes) (ws : List Bytes)
    → IsFaithful s
    → s.writer ≡ none
    → IsFaithful (record s { waiting = ws; writer = some (start_writer b) })
locks-IsFaithful s b ws v at = record {
  order = v.order ∙ ap (λ o. concat (map accepted s.returned) ++ under_way o) at;
  exact = v.exact;
  writer_valid = (refl, omega arith, tt);
  closed = v.closed;
}

step-IsFaithful : {s t : System} → Step s t → IsFaithful s → IsFaithful t
step-IsFaithful {s} (read_enters choice size h) v = quiet s _ _ v
step-IsFaithful {s} (read_closed before after size e h) v = quiet s _ _ v
step-IsFaithful {s} (read_late before after size e h) v = quiet s _ _ v
step-IsFaithful {s} (write_enters choice b h) v = quiet s _ _ v
step-IsFaithful {s} (locks before after b e h) v = locks-IsFaithful s b _ v h
step-IsFaithful {s} (hands_over w before after size at c e) v =
    hands_over-IsFaithful s w size _ v at c
step-IsFaithful {s} (counts w k at c) v = counts-IsFaithful s w k v at c
step-IsFaithful {s} (write_closed w at c h) v = gives_up-IsFaithful s w _ v at c
step-IsFaithful {s} (write_late w at c h) v = gives_up-IsFaithful s w _ v at c
step-IsFaithful {s} (closes_read e) v = pipe-IsFaithful s _ v (close_read-Closes e s.pipe)
step-IsFaithful {s} (closes_write e) v = pipe-IsFaithful s _ v (close_write-Closes e s.pipe)
step-IsFaithful {s} (sets_read t p e h) v =
    pipe-IsFaithful s p v (set_read-Closes t s.pipe p e h v.closed)
step-IsFaithful {s} (sets_write t p e h) v =
    pipe-IsFaithful s p v (set_write-Closes t s.pipe p e h v.closed)
step-IsFaithful {s} (read_expires h) v = pipe-IsFaithful s _ v v.closed
step-IsFaithful {s} (read_fires h) v = pipe-IsFaithful s _ v v.closed
step-IsFaithful {s} (write_expires h) v = pipe-IsFaithful s _ v v.closed
step-IsFaithful {s} (write_fires h) v = pipe-IsFaithful s _ v v.closed

run-IsFaithful : {s t : System} → Reach s t → IsFaithful s → IsFaithful t
run-IsFaithful here v = v
run-IsFaithful (next r x) v = step-IsFaithful x (run-IsFaithful r v)

-- Whatever reads, writes, closes and deadlines run on a new pipe, in any order: what all reads have
-- read is, in order, the first n bytes of each write that returned n and then what the write that
-- holds the lock has handed over; a count never exceeds the write, and is all of it if the write
-- returned no error; and the pipe is done exactly if one end has an error.
pub Reach-new-IsFaithful : (s : System) → Reach new_system s → IsFaithful s
Reach-new-IsFaithful s r =
    run-IsFaithful r (record { order = refl; exact = tt; writer_valid = tt; closed = refl })
