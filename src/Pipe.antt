-- ===== src/Pipe.antt =====
-- proxy/pipe/io_pipe.go: the synchronous pipe, first its operations between two waits, then the
-- steps of the calls that run at one time. Where a select has several ready cases, any is a step.
pub mod Deadline
pub mod Order
pub mod Release
pub mod Timers
use anytls_go.Common.{
  ℕ, ◌+◌, Bytes, List, [], ◌∷◌, ◌++◌, Option, none, some, Bool, true, false, length, take, drop,
  min, ◌==◌, if◌then◌else◌, Error, closed_pipe, deadline_exceeded, eof, ◌≡◌,
}
use anytls_go.Pipe.Deadline.{PipeDeadline, Moment, running, expired, make_pipe_deadline, fire, set}

-- onceError
unfoldable pub store : Error → Option Error → Option Error
store e (some old) = some old
store e none = some e

-- `done` says whether the channel done is closed.
pub record Pipe : Type 0 where
  pub done : Bool
  pub rerr : Option Error
  pub werr : Option Error
  pub read_deadline : PipeDeadline
  pub write_deadline : PipeDeadline

abbrev pub new_pipe : Pipe
new_pipe = record {
  done = false;
  rerr = none;
  werr = none;
  read_deadline = make_pipe_deadline;
  write_deadline = make_pipe_deadline;
}

abbrev pub or_default : Error → Option Error → Error
or_default d none = d
or_default d (some e) = e

unfoldable pub close_read : Option Error → Pipe → Pipe
unfolding store
close_read e p = record p { rerr = store (or_default closed_pipe e) p.rerr; done = true }

unfoldable pub close_write : Option Error → Pipe → Pipe
unfolding store
close_write e p = record p { werr = store (or_default eof e) p.werr; done = true }

-- readCloseError and writeCloseError
abbrev pub other_error : Option Error → Option Error → Error
other_error none (some e) = e
other_error none none = closed_pipe
other_error (some e) o = closed_pipe

unfoldable pub read_close_error : Pipe → Error
read_close_error p = other_error p.rerr p.werr

unfoldable pub write_close_error : Pipe → Error
write_close_error p = other_error p.werr p.rerr

-- The first select of read and of write: the error that returns at once, none for `default`.
-- `choice` is the one that Go takes where both channels are closed.
abbrev pub ready_error : Bool → Bool → Bool → Error → Option Error
ready_error choice done late e =
    if done
    then (if late then (if choice then some e else some deadline_exceeded) else some e)
    else if late
    then some deadline_exceeded
    else none

unfoldable pub enter_read : Bool → Pipe → Option Error
unfolding read_close_error
enter_read choice p = ready_error choice p.done p.read_deadline.cancelled (read_close_error p)

unfoldable pub enter_write : Bool → Pipe → Option Error
unfolding write_close_error
enter_write choice p = ready_error choice p.done p.write_deadline.cancelled (write_close_error p)

-- SetReadDeadline and SetWriteDeadline: none where they wait for ever.
abbrev pub put_read : Pipe → Option PipeDeadline → Option (Pipe × Option Error)
put_read p none = none
put_read p (some d) = some (record p { read_deadline = d }, none)

abbrev pub put_write : Pipe → Option PipeDeadline → Option (Pipe × Option Error)
put_write p none = none
put_write p (some d) = some (record p { write_deadline = d }, none)

unfoldable pub set_read_deadline : Moment → Pipe → Option (Pipe × Option Error)
unfolding set
set_read_deadline t p =
    if p.done then some (p, some closed_pipe) else put_read p (set t p.read_deadline)

unfoldable pub set_write_deadline : Moment → Pipe → Option (Pipe × Option Error)
unfolding set
set_write_deadline t p =
    if p.done then some (p, some closed_pipe) else put_write p (set t p.write_deadline)

-- The write that holds wrMu: its argument, what is left of it, what it has counted, and the count
-- that a reader has for it, none while it offers `left` on wrCh.
pub record Writer : Type 0 where
  pub given : Bytes
  pub left : Bytes
  pub n : ℕ
  pub count : Option ℕ

-- A write that returned: its argument, its count and its error.
abbrev pub Returned : Type 0
Returned = Bytes × ℕ × Option Error

-- `readers` are the buffer sizes of the reads in their second select, `waiting` the writes that wait
-- for wrMu; `delivered` is what all reads have read, in order.
pub record System : Type 0 where
  pub pipe : Pipe
  pub readers : List ℕ
  pub waiting : List Bytes
  pub writer : Option Writer
  pub delivered : Bytes
  pub returned : List Returned

abbrev pub new_system : System
new_system = record {
  pipe = new_pipe;
  readers = [];
  waiting = [];
  writer = none;
  delivered = [];
  returned = [];
}

-- write's loop
abbrev pub start_writer : Bytes → Writer
start_writer b = record { given = b; left = b; n = 0; count = none }

abbrev pub finish : Writer → Option Error → System → System
finish w e s = record s { writer = none; returned = s.returned ++ (w.given, w.n, e) ∷ [] }

abbrev pub counted : ℕ → Writer → Writer
counted k w = record w { left = drop k w.left; n = w.n + k; count = none }

unfoldable pub settle : Writer → System → System
settle w s = if length w.left == 0 then finish w none s else record s { writer = some w }

-- One step of one of the calls, of a closer or of a timer
pub data Step (s : System) : System → Type 0 where
  -- the first select of read takes its default
  read_enters :
      (choice : Bool) (size : ℕ)
      → enter_read choice s.pipe ≡ none
      → Step s (record s { readers = size ∷ s.readers })
  -- the second select of read takes done, or the deadline
  read_closed :
      (before after : List ℕ) (size : ℕ)
      → s.readers ≡ before ++ size ∷ after
      → s.pipe.done ≡ true
      → Step s (record s { readers = before ++ after })
  read_late :
      (before after : List ℕ) (size : ℕ)
      → s.readers ≡ before ++ size ∷ after
      → s.pipe.read_deadline.cancelled ≡ true
      → Step s (record s { readers = before ++ after })
  write_enters :
      (choice : Bool) (b : Bytes)
      → enter_write choice s.pipe ≡ none
      → Step s (record s { waiting = b ∷ s.waiting })
  locks :
      (before after : List Bytes) (b : Bytes)
      → s.waiting ≡ before ++ b ∷ after
      → s.writer ≡ none
      → Step s (record s { waiting = before ++ after; writer = some (start_writer b) })
  -- wrCh, and the copy into the reader's buffer
  hands_over :
      (w : Writer) (before after : List ℕ) (size : ℕ)
      → s.writer ≡ some w
      → w.count ≡ none
      → s.readers ≡ before ++ size ∷ after
      → Step s (record s {
        readers = before ++ after;
        writer = some (record w { count = some (min size (length w.left)) });
        delivered = s.delivered ++ take (min size (length w.left)) w.left;
      })
  -- rdCh
  counts :
      (w : Writer) (k : ℕ) → s.writer ≡ some w → w.count ≡ some k → Step s (settle (counted k w) s)
  write_closed :
      (w : Writer)
      → s.writer ≡ some w
      → w.count ≡ none
      → s.pipe.done ≡ true
      → Step s (finish w (some (write_close_error s.pipe)) s)
  write_late :
      (w : Writer)
      → s.writer ≡ some w
      → w.count ≡ none
      → s.pipe.write_deadline.cancelled ≡ true
      → Step s (finish w (some deadline_exceeded) s)
  closes_read : (e : Option Error) → Step s (record s { pipe = close_read e s.pipe })
  closes_write : (e : Option Error) → Step s (record s { pipe = close_write e s.pipe })
  sets_read :
      (t : Moment) (p : Pipe) (e : Option Error)
      → set_read_deadline t s.pipe ≡ some (p, e)
      → Step s (record s { pipe = p })
  sets_write :
      (t : Moment) (p : Pipe) (e : Option Error)
      → set_write_deadline t s.pipe ≡ some (p, e)
      → Step s (record s { pipe = p })
  -- a timer of a deadline runs out, and its callback closes the channel
  read_expires :
      s.pipe.read_deadline.timer ≡ running
      → Step s (record s {
        pipe = record s.pipe { read_deadline = record s.pipe.read_deadline { timer = expired } };
      })
  read_fires :
      s.pipe.read_deadline.timer ≡ expired
      → Step s (record s { pipe = record s.pipe { read_deadline = fire s.pipe.read_deadline } })
  write_expires :
      s.pipe.write_deadline.timer ≡ running
      → Step s (record s {
        pipe = record s.pipe { write_deadline = record s.pipe.write_deadline { timer = expired } };
      })
  write_fires :
      s.pipe.write_deadline.timer ≡ expired
      → Step s (record s { pipe = record s.pipe { write_deadline = fire s.pipe.write_deadline } })

pub data Reach (s : System) : System → Type 0 where
  here : Reach s s
  next : {t u : System} → Reach s t → Step t u → Reach s u
