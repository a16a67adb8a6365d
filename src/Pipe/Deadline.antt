-- ===== src/Pipe/Deadline.antt =====
-- proxy/pipe/deadline.go: PipeDeadline, with Go's timer and the channel that it closes. A point in
-- time is seen as Set sees it.
use anytls_go.Common.{Option, none, some, Bool, true, false, not, if◌then◌else◌}

-- t.IsZero, time.Until(t) > 0, and neither
pub data Moment : Type 0 where
  zero_time past future : Moment

-- The field timer: nil, or one that runs, whose callback has started, or whose callback is done
pub data Timer : Type 0 where
  nil running expired finished : Timer

-- `cancelled` says whether the channel cancel is closed, `panicked` whether a closed channel was
-- closed again.
pub record PipeDeadline : Type 0 where
  pub timer : Timer
  pub cancelled : Bool
  pub panicked : Bool

-- MakePipeDeadline
abbrev pub make_pipe_deadline : PipeDeadline
make_pipe_deadline = record { timer = nil; cancelled = false; panicked = false }

-- close(d.cancel)
abbrev pub close_cancel : PipeDeadline → PipeDeadline
close_cancel d = if d.cancelled then record d { panicked = true } else record d { cancelled = true }

-- The timer's callback
abbrev pub fire : PipeDeadline → PipeDeadline
fire d = record (close_cancel d) { timer = finished }

-- The part of Set that stops the timer; none where it waits for ever.
abbrev pub stop_case : Timer → PipeDeadline → Option PipeDeadline
stop_case nil d = some (record d { timer = nil })
stop_case running d = some (record d { timer = nil })
stop_case expired d = some (record (fire d) { timer = nil })
stop_case finished d = if d.cancelled then some (record d { timer = nil }) else none

-- The rest of Set
abbrev pub set_case : Moment → Option PipeDeadline → Option PipeDeadline
set_case t none = none
set_case zero_time (some d) = some (record d { cancelled = false })
set_case future (some d) = some (record d { cancelled = false; timer = running })
set_case past (some d) = some (if not d.cancelled then close_cancel d else d)

unfoldable pub set : Moment → PipeDeadline → Option PipeDeadline
set t d = set_case t (stop_case d.timer d)
