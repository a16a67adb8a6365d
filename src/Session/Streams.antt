-- ===== src/Session/Streams.antt =====
-- proxy/session/stream.go, and the parts of session.go that open, accept, refuse and close streams.
-- A stream is found by its id; the map of the session holds those that it knows.
use anytls_go.Common.{
  ℕ, ◌+◌, ◌%◌, Bytes, List, [], ◌∷◌, Option, none, some, Bool, true, false, not, ◌&&◌, length, ltb,
  leb, ◌==◌, if◌then◌else◌, Error, closed_pipe, deadline_exceeded, Result, ok, err, M, codes,
}
use anytls_go.Common.Maps.{lookup, insert, delete, adjust, nat_key}
use anytls_go.Frame.{Frame, syn, fin, syn_ack, new_frame, u32}
use anytls_go.Session.State.{Session, Stream, handler_started, new_stream, die, death_events, close}
use anytls_go.Session.Write.{Env, write_control_frame, write_data_frame}

-- maxServerStreams
abbrev pub max_server_streams : ℕ
max_server_streams = 1024

-- `delete(s.streams, sid)`; the object lives on in `gone`.
abbrev pub to_gone : Option Stream → List Stream → List Stream
to_gone none gone = gone
to_gone (some st) gone = st ∷ gone

unfoldable pub remove_stream : ℕ → Session → Session
unfolding lookup delete
remove_stream sid s = record s {
  streams = delete sid s.streams;
  gone = to_gone (lookup sid s.streams) s.gone;
}

-- streamClosed: the FIN goes out first, and the entry goes whether or not it could be written.
abbrev pub forget {ℓ} : {A : Type ℓ} → ℕ → Session × Result A → Session × Result (Unit {0})
forget sid (s, ok a) = (remove_stream sid s, ok tt)
forget sid (s, err e) = (remove_stream sid s, err e)

unfoldable pub stream_closed : Env → ℕ → M Session (Unit {0})
unfolding write_control_frame remove_stream new_frame
stream_closed env sid s =
    if s.closed
    then (s, err closed_pipe)
    else forget sid (write_control_frame env (new_frame fin sid) s)

-- closeWithError on a stream of the map: dieOnce, then streamClosed, then the stream's dieHook.
-- A stream that is dead already answers with its first error.
abbrev pub run_hook : Stream → Session × Result (Unit {0}) → Session × Result (Unit {0})
run_hook st (s, r) = (record s { log = death_events st s.log }, r)

abbrev pub close_case : Env → Error → Stream → Option Error → M Session (Unit {0})
close_case env e st (some first) s = (s, err first)
close_case env e st none s =
    run_hook st (stream_closed env st.id (record s { streams = adjust st.id (die e) s.streams }))

unfoldable pub close_with_error : Env → Error → Stream → M Session (Unit {0})
unfolding stream_closed die adjust
close_with_error env e st s = close_case env e st st.die_err s

-- Stream.Close
unfoldable pub close_stream : Env → Stream → M Session (Unit {0})
unfolding close_with_error
close_stream env st s = close_with_error env closed_pipe st s

-- OpenStream: the id is counted in 32 bits; from the second stream on, with a version 2 peer, a
-- deadline watcher takes the place of the one before; then the SYN goes out. A stream that the map has under the id
-- already loses its entry and lives on in `gone`.
abbrev pub register : ℕ → Session × Result ℕ → Session × Result ℕ
register sid (s, err e) = (s, err e)
register sid (s, ok n) = if s.closed then (record s { buffering = false }, err closed_pipe) else (
  record s {
    buffering = false;
    streams = insert sid (new_stream sid) s.streams;
    gone = to_gone (lookup sid s.streams) s.gone;
  },
  ok sid,
)

unfoldable pub open_stream : Env → M Session ℕ
unfolding write_control_frame lookup insert new_stream new_frame
open_stream env s =
    let sid = (s.stream_id + 1) % u32 in
    let watch = leb 2 sid && leb 2 s.peer_version in
    if s.closed
    then (s, err closed_pipe)
    else register sid (
        write_control_frame env (new_frame syn sid)
          (record s { stream_id = sid; syn_pending = if watch then true else s.syn_pending }))

-- acceptStream: false if the server has as many streams as it may. It does not look at die.
abbrev pub accept_case : ℕ → Session → Option Stream → Session × Bool
accept_case sid s (some st) = (s, true)
accept_case sid s none =
    if not s.is_client && leb max_server_streams (length s.streams) then (s, false) else (
      record s {
        streams = insert sid (new_stream sid) s.streams;
        log = handler_started sid ∷ s.log;
      },
      true,
    )

unfoldable pub accept_stream : ℕ → Session → Session × Bool
unfolding lookup insert new_stream
accept_stream sid s = accept_case sid s (lookup sid s.streams)

-- refuseStream
unfoldable pub refusal : Session → ℕ → Frame
unfolding new_frame
refusal s sid =
    if leb 2 s.peer_version
    then record { cmd = syn_ack; sid = sid; payload = codes "too many streams" }
    else new_frame fin sid

unfoldable pub refuse_stream : Env → ℕ → M Session ℕ
unfolding write_control_frame refusal
refuse_stream env sid s = write_control_frame env (refusal s sid) s

-- The watcher's timer: it closes the session unless it has been called off.
unfoldable pub syn_timeout : Session → Session
unfolding close
syn_timeout s = if s.syn_pending then (close s).0 else s

-- HandshakeSuccess and HandshakeFailure: what the SYNACK carries, none where the error is nil.
pub data Outcome : Type 0 where
  success : Outcome
  failure : Option Bytes → Outcome

abbrev pub message : Outcome → Option Bytes
message success = some []
message (failure e) = e

abbrev pub report_frame : ℕ → Bytes → Frame
report_frame sid text = record { cmd = syn_ack; sid = sid; payload = text }

abbrev pub done {ℓ} : {A : Type ℓ} → Session × Result A → Session × Result (Unit {0})
done (s, ok a) = (s, ok tt)
done (s, err e) = (s, err e)

abbrev pub set_reported : Stream → Stream
set_reported st = record st { reported = true }

-- reportOnce lets the first report of a stream through, and only to a version 2 peer.
abbrev pub report_case : Env → Stream → Option Bytes → M Session (Unit {0})
report_case env st none s = (s, ok tt)
report_case env st (some text) s =
    if leb 2 s.peer_version
    then done (write_control_frame env (report_frame st.id text) s)
    else (s, ok tt)

unfoldable pub report : Env → Stream → Outcome → M Session (Unit {0})
unfolding write_control_frame adjust
report env st outcome s =
    if st.reported
    then (s, ok tt)
    else report_case env st (message outcome)
        (record s { streams = adjust st.id set_reported s.streams })

-- The traffic counters: Write adds the bytes that the peer is sent to Rx, Read adds those that it
-- sent to Tx; the identity counts the streams that ask for it, the counter its own stream.
abbrev pub add_rx : ℕ → Stream → Stream
add_rx n st = if st.counter then record st { rx = st.rx + n } else st

abbrev pub add_tx : ℕ → Stream → Stream
add_tx n st = if st.counter then record st { tx = st.tx + n } else st

unfoldable pub count_rx : ℕ → Stream → Session → Session
unfolding adjust
count_rx n st s =
    if ltb 0 n
    then record s {
      streams = adjust st.id (add_rx n) s.streams;
      identity_rx = if s.identity && st.count_identity then s.identity_rx + n else s.identity_rx;
    }
    else s

unfoldable pub count_tx : ℕ → Stream → Session → Session
unfolding adjust
count_tx n st s =
    if ltb 0 n
    then record s {
      streams = adjust st.id (add_tx n) s.streams;
      identity_tx = if s.identity && st.count_identity then s.identity_tx + n else s.identity_tx;
    }
    else s

-- Stream.Write: the deadline and the death of the stream come before the session; what was written
-- is counted, on a partial write too. `expired` says whether the write deadline has passed.
abbrev pub counted_write : Stream → Session × ℕ × Option Error → Session × ℕ × Option Error
counted_write st (s, n, e) = (count_rx n st s, n, e)

abbrev pub write_case : Env → Stream → Bytes → Option Error → Session → Session × ℕ × Option Error
write_case env st p (some e) s = (s, 0, some e)
write_case env st p none s = counted_write st (write_data_frame env st.id p s)

unfoldable pub write_stream : Env → Bool → Stream → Bytes → Session → Session × ℕ × Option Error
unfolding write_data_frame count_rx
write_stream env expired st p s =
    if expired then (s, 0, some deadline_exceeded) else write_case env st p st.die_err s

-- Stream.Read, given what the pipe's reader returned: a read of nothing from a dead stream reports
-- the stream's own error.
abbrev pub read_error : ℕ → Option Error → Option Error → Option Error
read_error n none e = e
read_error n (some d) e = if n == 0 then some d else e

unfoldable pub read_stream : Stream → ℕ × Option Error → Session → Session × ℕ × Option Error
unfolding count_tx
read_stream st (n, e) s = (count_tx n st s, n, read_error n st.die_err e)
