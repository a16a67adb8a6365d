-- ===== src/Session/Steps.antt =====
-- Everything that can happen to the map of a session, as one step each, in any order. The loop looks
-- at die before it reads a header, and Close may come between, so a frame is handled in a closed
-- session too. The operations are those of the streams in the map, found by their ids; of a stream
-- that has left it, Close can reach the map again.
use anytls_go.Common.{ℕ, Bytes, List, [], ◌∷◌, Option, none, some, Bool, Error, if◌then◌else◌}
use anytls_go.Common.Maps.{lookup, nat_key}
use anytls_go.Frame.{Frame}
use anytls_go.Session.State.{Session, Stream, close}
use anytls_go.Session.Write.{Env}
use anytls_go.Session.Streams.{
  Outcome, stream_closed, close_stream, open_stream, syn_timeout, report, write_stream, read_stream,
}
use anytls_go.Session.Recv.{Recv, in_session}
use anytls_go.Session.Frames.{Reply, go, halt, on_frame}

pub data Action : Type 0 where
  -- the receive loop handles a frame
  receive : Frame → Action
  -- OpenStream, by a client
  open_next : Action
  -- Stream.Write with its deadline passed or not, and Stream.Read of what the pipe returns
  write : ℕ → Bool → Bytes → Action
  read : ℕ → ℕ × Option Error → Action
  -- Stream.Close, HandshakeSuccess and HandshakeFailure
  shut : ℕ → Action
  -- streamClosed, by Close of a stream that another one of its id has displaced
  stale_close : ℕ → Action
  answer : ℕ → Outcome → Action
  -- the watcher's timer, and Session.Close
  timeout : Action
  shut_all : Action

abbrev pub after : Reply → Recv
after (go r) = r
after (halt r e) = in_session r (close r.session).0

abbrev pub on_stream : Option Stream → (Stream → Session) → Session → Session
on_stream none f s = s
on_stream (some st) f s = f st

unfoldable pub step_session : Env → Action → Session → Session
unfolding open_stream write_stream read_stream close_stream stream_closed report syn_timeout close
    lookup
step_session env (receive f) s = s
step_session env open_next s = if s.is_client then (open_stream env s).0 else s
step_session env (write sid expired p) s =
    on_stream (lookup sid s.streams) (λ st. (write_stream env expired st p s).0) s
step_session env (read sid got) s =
    on_stream (lookup sid s.streams) (λ st. (read_stream st got s).0) s
step_session env (shut sid) s = on_stream (lookup sid s.streams) (λ st. (close_stream env st s).0) s
step_session env (answer sid o) s = on_stream (lookup sid s.streams) (λ st. (report env st o s).0) s
step_session env (stale_close sid) s = (stream_closed env sid s).0
step_session env timeout s = syn_timeout s
step_session env shut_all s = (close s).0

unfoldable pub step : Env → Action → Recv → Recv
unfolding step_session on_frame
step env (receive f) r = after (on_frame env f r)
step env a r = in_session r (step_session env a r.session)

unfoldable pub run : Env → List Action → Recv → Recv
unfolding step
run env [] r = r
run env (a ∷ more) r = run env more (step env a r)
