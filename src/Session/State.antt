-- ===== src/Session/State.antt =====
-- The state of proxy/session/session.go and proxy/session/stream.go. A stream that leaves the map
-- `streams` is kept in `gone`, since its holder may go on calling it; the callbacks that the
-- session and its streams make are entries of `log`, newest first.
use anytls_go.Common.{
  ℕ, Bytes, List, [], ◌∷◌, ◌++◌, Option, none, some, Bool, true, false, Error, net_closed,
  closed_pipe, if◌then◌else◌, ok, err, M,
}
use anytls_go.Padding.{PaddingFactory}
use anytls_go.Session.Conn
use anytls_go.Session.Conn.{Conn}

-- A Stream: `die_err` is none until dieOnce has run; the pipe's reader is closed from then on.
-- `received` is what the receive loop wrote to pipeW while the reader was open.
pub record Stream : Type 0 where
  pub id : ℕ
  pub die_err : Option Error
  -- dieHook is set
  pub hooked : Bool
  -- reportOnce has run
  pub reported : Bool
  pub received : Bytes
  -- the counters of the stream and of the session's identity that AddTx and AddRx reach
  pub counter : Bool
  pub count_identity : Bool
  pub tx : ℕ
  pub rx : ℕ

-- What the session tells the rest of the program.
pub data Event : Type 0 where
  session_died : Event
  stream_died : ℕ → Event
  handler_started : ℕ → Event
  alerted : Bytes → Event
  padding_updated : Bool → Event

pub record Session : Type 0 where
  pub conn : Conn
  pub streams : List (ℕ × Stream)
  pub gone : List Stream
  pub stream_id : ℕ
  -- die is closed
  pub closed : Bool
  -- dieHook is set
  pub hooked : Bool
  -- a deadline watcher runs: synDone is set and has not been called
  pub syn_pending : Bool
  -- the factory that the session's atomic pointer holds
  pub padding : PaddingFactory
  pub peer_version : ℕ
  pub is_client : Bool
  pub send_padding : Bool
  pub buffering : Bool
  pub buffer : Bytes
  pub pkt_counter : ℕ
  -- Identity is set, and its counters
  pub identity : Bool
  pub identity_tx : ℕ
  pub identity_rx : ℕ
  pub log : List Event

-- newStream
unfoldable pub new_stream : ℕ → Stream
new_stream sid = record {
  id = sid;
  die_err = none;
  hooked = false;
  reported = false;
  received = [];
  counter = false;
  count_identity = false;
  tx = 0;
  rx = 0;
}

-- NewClientSession and NewServerSession
unfoldable pub new_session : Bool → Conn → PaddingFactory → Session
new_session is_client conn padding = record {
  conn = conn;
  streams = [];
  gone = [];
  stream_id = 0;
  closed = false;
  hooked = false;
  syn_pending = false;
  padding = padding;
  peer_version = 0;
  is_client = is_client;
  send_padding = is_client;
  buffering = false;
  buffer = [];
  pkt_counter = 0;
  identity = false;
  identity_tx = 0;
  identity_rx = 0;
  log = [];
}

-- The death of a stream, dieOnce with its error: the first caller's error stays.
abbrev pub is_alive : Option Error → Bool
is_alive none = true
is_alive (some e) = false

unfoldable pub die : Error → Stream → Stream
die e st = if is_alive st.die_err then record st { die_err = some e; hooked = false } else st

-- dieHook runs once, on the call that makes the stream die.
abbrev pub death_events : Stream → List Event → List Event
death_events st log =
    if is_alive st.die_err then (if st.hooked then stream_died st.id ∷ log else log) else log

-- closeLocally
unfoldable pub close_locally : Stream → Stream
unfolding die
close_locally st = die net_closed st

-- The loop of Close over the map.
unfoldable pub close_all : List (ℕ × Stream) → List Stream
unfolding close_locally
close_all [] = []
close_all ((sid, st) ∷ m) = close_locally st ∷ close_all m

unfoldable pub close_events : List (ℕ × Stream) → List Event → List Event
close_events [] log = log
close_events ((sid, st) ∷ m) log = close_events m (death_events st log)

-- Session.Close
unfoldable pub close : M Session (Unit {0})
unfolding close_all close_events Conn.close
close s = if s.closed then (s, err closed_pipe) else (
  record s {
    closed = true;
    hooked = false;
    streams = [];
    gone = close_all s.streams ++ s.gone;
    conn = Conn.close s.conn;
    log = close_events s.streams (if s.hooked then session_died ∷ s.log else s.log);
  },
  ok tt,
)
