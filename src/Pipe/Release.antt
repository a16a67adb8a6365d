-- ===== src/Pipe/Release.antt =====
-- Nothing stays blocked on a pipe that is done.
use anytls_go.Common.{
  ℕ, Bytes, List, [], ◌∷◌, Option, none, some, true, length, ◌==◌, if_elim, ◌≡◌, refl,
}
use anytls_go.Pipe.{
  Writer, System, finish, start_writer, counted, settle, write_close_error, Step, Reach, here, next,
  read_closed, locks, counts, write_closed,
}

-- No call is on the way, the pipe is as it was, and no read got more bytes.
abbrev pub IsQuiet : System → System → Type 0
IsQuiet s t =
    (t.readers ≡ [])
    × (t.waiting ≡ [])
    × (t.writer ≡ none)
    × (t.pipe ≡ s.pipe)
    × (t.delivered ≡ s.delivered)

-- A run to a state that is quiet, seen from s
Quiets : System → System → Type 0
Quiets o s = (t : System) × Reach s t × IsQuiet o t

first : {s t u : System} → Step s t → Reach t u → Reach s u
first x here = next here x
first x (next r y) = next (first x r) y

before : (o : System) {s t : System} → Step s t → Quiets o t → Quiets o s
unfolding Quiets
before o x (t, r, q) = (t, first x r, q)

-- The waiting reads first, then the waiting writes
readers_leave :
    (o s : System) (rs : List ℕ)
    → s.readers ≡ rs
    → s.waiting ≡ []
    → s.writer ≡ none
    → s.pipe.done ≡ true
    → s.pipe ≡ o.pipe
    → s.delivered ≡ o.delivered
    → Quiets o s
unfolding Quiets
readers_leave o s [] r w a d p b = (s, here, (r, w, a, p, b))
readers_leave o s (size ∷ rs) r w a d p b =
    before o (read_closed [] rs size r d)
      (readers_leave o (record s { readers = rs }) rs refl w a d p b)

waiting_leave :
    (o s : System) (ws : List Bytes)
    → s.waiting ≡ ws
    → s.writer ≡ none
    → s.pipe.done ≡ true
    → s.pipe ≡ o.pipe
    → s.delivered ≡ o.delivered
    → Quiets o s
waiting_leave o s [] w a d p b = readers_leave o s s.readers refl w a d p b
waiting_leave o s (x ∷ ws) w a d p b = before o (locks [] ws x w a) (
    before o (write_closed (start_writer x) refl refl d) (
      waiting_leave o
        (finish (start_writer x) (some (write_close_error s.pipe))
          (record s { waiting = ws; writer = some (start_writer x) }))
        ws refl refl d p b))

-- The write that holds the lock gives it up, behind the count of a reader.
offer_leaves :
    (o s : System) (w : Writer)
    → s.writer ≡ some w
    → w.count ≡ none
    → s.pipe.done ≡ true
    → s.pipe ≡ o.pipe
    → s.delivered ≡ o.delivered
    → Quiets o s
offer_leaves o s w a c d p b =
    before o (write_closed w a c d)
      (waiting_leave o (finish w (some (write_close_error s.pipe)) s) s.waiting refl refl d p b)

settled_leaves :
    (o s : System) (w : Writer)
    → w.count ≡ none
    → s.pipe.done ≡ true
    → s.pipe ≡ o.pipe
    → s.delivered ≡ o.delivered
    → Quiets o (settle w s)
unfolding settle
settled_leaves o s w c d p b =
    if_elim (Quiets o) (length w.left == 0) _ _
      (λ e. waiting_leave o (finish w none s) s.waiting refl refl d p b)
      (λ e. offer_leaves o (record s { writer = some w }) w refl c d p b)

count_leaves :
    (o s : System) (w : Writer) (k : Option ℕ)
    → s.writer ≡ some w
    → w.count ≡ k
    → s.pipe.done ≡ true
    → s.pipe ≡ o.pipe
    → s.delivered ≡ o.delivered
    → Quiets o s
count_leaves o s w none a c d p b = offer_leaves o s w a c d p b
count_leaves o s w (some k) a c d p b =
    before o (counts w k a c) (settled_leaves o s (counted k w) refl d p b)

writer_leaves :
    (o s : System) (w : Option Writer)
    → s.writer ≡ w
    → s.pipe.done ≡ true
    → s.pipe ≡ o.pipe
    → s.delivered ≡ o.delivered
    → Quiets o s
writer_leaves o s none a d p b = waiting_leave o s s.waiting refl a d p b
writer_leaves o s (some w) a d p b = count_leaves o s w w.count a refl d p b

-- Whatever calls are blocked in a pipe that is done, the calls alone have steps after which every
-- read and every write has returned, while the pipe is as it was and no read got more bytes.
pub done-IsQuiet : (s : System) → s.pipe.done ≡ true → (t : System) × Reach s t × IsQuiet s t
unfolding Quiets
done-IsQuiet s d = writer_leaves s s s.writer refl d refl refl
