-- ===== src/Session/Recv.antt =====
-- recvLoop of proxy/session/session.go, over the bytes that the connection delivers. An input that
-- ends makes io.ReadFull fail. The loop's own variable receivedSettingsFromClient is in its state.
pub mod Total
use anytls_go.Common.{
  ℕ, zero, suc, Bytes, List, [], ◌∷◌, ◌++◌, Option, none, some, Bool, true, false, not, ◌&&◌,
  length, ltb, leb, ◌=b◌, if◌then◌else◌, Error, closed_pipe, eof, remote, Result, ok, err, codes,
}
use anytls_go.Common.Maps.{lookup, adjust, nat_key}
use anytls_go.Frame.{
  Command, waste, syn, psh, fin, settings, alert, update_padding_scheme, syn_ack, heart_request,
  heart_response, server_settings, unknown, Frame, Header, new_frame, read_header, read_full,
}
use anytls_go.Text.{ℤ, pos, negsuc, to_u32, atoi}
use anytls_go.StringMap.{StringMap, from_bytes, to_bytes, get}
use anytls_go.Padding
use anytls_go.Session.State.{
  Session, Stream, Event, alerted, padding_updated, is_alive, death_events, close_locally, close,
}
use anytls_go.Session.Write.{Env, write_control_frame}
use anytls_go.Session.Streams.{remove_stream, close_with_error, accept_stream, refuse_stream}

pub record Recv : Type 0 where
  pub session : Session
  pub got_settings : Bool

-- A round of the loop goes on with the rest of the input, or returns from recvLoop.
pub data Round : Type 0 where
  more : Recv → Bytes → Round
  stop : Recv → Option Error → Round

-- buf.Get and io.ReadFull of a payload
abbrev pub took : Recv → (Bytes → Bytes → Round) → Option (Bytes × Bytes) → Round
took r k none = stop r (some eof)
took r k (some (p, rest)) = k p rest

abbrev pub with_payload : ℕ → Bytes → Recv → (Bytes → Bytes → Round) → Round
with_payload n input r k = took r k (read_full n input)

-- A write whose error ends the loop.
abbrev pub or_stop : Bool → Session × Result ℕ → (Session → Round) → Round
or_stop g (s, ok a) k = k s
or_stop g (s, err e) k = stop (record { session = s; got_settings = g }) (some e)

abbrev pub in_session : Recv → Session → Recv
in_session r s = record r { session = s }

-- pipeW.Write, at its return: it blocks the loop until readers have taken all the bytes or the reader
-- is closed. `received` is what they take if they take all; a write that is still blocked, or that a
-- close cuts short, is not a state of this model, and the pipe itself is that of Pipe.
abbrev pub feed : Bytes → Stream → Stream
feed p st = if is_alive st.die_err then record st { received = st.received ++ p } else st

unfoldable pub deliver : ℕ → Bytes → Session → Session
unfolding adjust
deliver sid p s = record s { streams = adjust sid (feed p) s.streams }

-- cmdSYN
unfoldable pub on_syn : Env → ℕ → Bytes → Recv → Round
unfolding write_control_frame accept_stream refuse_stream
on_syn env sid input r =
    let s = r.session in
    if not s.is_client && not r.got_settings
    then stop
        (in_session r
          (write_control_frame env
            (record { cmd = alert; sid = 0; payload = codes "client did not send its settings" })
            s).0)
        none
    else if (accept_stream sid s).1
    then more (in_session r (accept_stream sid s).0) input
    else or_stop r.got_settings (refuse_stream env sid (accept_stream sid s).0)
        (λ s'. more (in_session r s') input)

-- cmdSYNACK: it calls the watcher off; a payload is the remote error.
abbrev pub close_remote : Env → Bytes → Option Stream → Session → Session
close_remote env p none s = s
close_remote env p (some st) s = (close_with_error env (remote p) st s).0

unfoldable pub on_syn_ack : Env → ℕ → ℕ → Bytes → Recv → Round
unfolding close_with_error lookup read_full
on_syn_ack env sid len input r =
    let s = record r.session { syn_pending = false } in
    if ltb 0 len
    then with_payload len input (in_session r s)
        (λ p rest. more (in_session r (close_remote env p (lookup sid s.streams) s)) rest)
    else more (in_session r s) input

-- cmdFIN: the entry goes first, then the stream closes without telling the peer.
abbrev pub fin_events : Option Stream → List Event → List Event
fin_events none log = log
fin_events (some st) log = death_events st log

unfoldable pub on_fin : ℕ → Session → Session
unfolding remove_stream adjust close_locally lookup
on_fin sid s =
    let t = remove_stream sid (record s { streams = adjust sid close_locally s.streams }) in
    record t { log = fin_events (lookup sid s.streams) s.log }

-- The version that a settings text states; none is an error of Atoi.
abbrev pub version : StringMap → Option ℤ
version m = atoi (get m (codes "v"))

abbrev pub at_least : ℕ → Option ℤ → Option ℕ
at_least n none = none
at_least n (some (negsuc v)) = none
at_least n (some (pos v)) = if leb n v then some (to_u32 (pos v)) else none

-- cmdSettings at the server: the padding scheme if the client's is another, then the version.
abbrev pub scheme_frame : Session → Frame
scheme_frame s = record { cmd = update_padding_scheme; sid = 0; payload = s.padding.raw_scheme }

abbrev pub version_frame : Frame
version_frame = record {
  cmd = server_settings;
  sid = 0;
  payload = to_bytes ((codes "v", codes "2") ∷ []);
}

unfoldable pub send_scheme : Env → StringMap → Session → Session × Result ℕ
unfolding write_control_frame get
send_scheme env m s =
    if get m (codes "padding-md5") =b s.padding.md5
    then (s, ok 0)
    else write_control_frame env (scheme_frame s) s

abbrev pub send_version : Env → Option ℕ → Session → Session × Result ℕ
send_version env none s = (s, ok 0)
send_version env (some v) s = write_control_frame env version_frame (record s { peer_version = v })

unfoldable pub on_settings : Env → Bytes → Bytes → Recv → Round
unfolding send_scheme from_bytes get atoi
on_settings env p rest r =
    let m = from_bytes p in
    if r.session.is_client
    then more r rest
    else or_stop true (send_scheme env m r.session) λ s.
      or_stop true (send_version env (at_least 2 (version m)) s)
        λ s'. more (record { session = s'; got_settings = true }) rest

-- cmdUpdatePaddingScheme at the client
abbrev pub with_padding : Session → Padding.PaddingFactory × Bool → Session
with_padding s (f, done) = record s { padding = f; log = padding_updated done ∷ s.log }

unfoldable pub on_update : Env → Bytes → Session → Session
unfolding Padding.update_padding_scheme
on_update env p s =
    if s.is_client && not env.debug_padding
    then with_padding s (Padding.update_padding_scheme env.md5 p s.padding)
    else s

-- cmdAlert with a text: it is logged at the client, and the loop returns.
abbrev pub on_alert : Bytes → Session → Session
on_alert p s = if s.is_client then record s { log = alerted p ∷ s.log } else s

-- cmdServerSettings at the client
abbrev pub set_version : Option ℕ → Session → Session
set_version none s = s
set_version (some v) s = record s { peer_version = v }

unfoldable pub on_server_settings : Bytes → Session → Session
unfolding from_bytes get atoi
on_server_settings p s =
    if s.is_client then set_version (at_least 0 (version (from_bytes p))) s else s

-- The switch. A command without a case, SYN, FIN and the two heartbeats leave the payload that a
-- header announces unread.
unfoldable pub dispatch : Env → Command → ℕ → ℕ → Bytes → Recv → Round
unfolding deliver on_syn on_syn_ack on_fin on_settings on_update on_server_settings read_full
dispatch env psh sid len input r =
    if ltb 0 len
    then with_payload len input r (λ p rest. more (in_session r (deliver sid p r.session)) rest)
    else more r input
dispatch env syn sid len input r = on_syn env sid input r
dispatch env syn_ack sid len input r = on_syn_ack env sid len input r
dispatch env fin sid len input r = more (in_session r (on_fin sid r.session)) input
dispatch env waste sid len input r =
    if ltb 0 len then with_payload len input r (λ p rest. more r rest) else more r input
dispatch env settings sid len input r =
    if ltb 0 len
    then with_payload len input r (λ p rest. on_settings env p rest r)
    else more r input
dispatch env alert sid len input r =
    if ltb 0 len
    then with_payload len input r (λ p rest. stop (in_session r (on_alert p r.session)) none)
    else more r input
dispatch env update_padding_scheme sid len input r =
    if ltb 0 len
    then with_payload len input r (λ p rest. more (in_session r (on_update env p r.session)) rest)
    else more r input
dispatch env heart_request sid len input r =
    or_stop r.got_settings (write_control_frame env (new_frame heart_response sid) r.session)
      (λ s. more (in_session r s) input)
dispatch env heart_response sid len input r = more r input
dispatch env server_settings sid len input r =
    if ltb 0 len
    then with_payload len input r
        (λ p rest. more (in_session r (on_server_settings p r.session)) rest)
    else more r input
dispatch env (unknown b) sid len input r = more r input

-- One round: the session may have been closed; then the header, then the switch.
abbrev pub with_header : Env → Recv → Option (Header × Bytes) → Round
with_header env r none = stop r (some eof)
with_header env r (some (h, rest)) = dispatch env h.cmd h.sid h.len rest r

unfoldable pub round : Env → Bytes → Recv → Round
unfolding dispatch read_header
round env input r =
    if r.session.closed then stop r (some closed_pipe) else with_header env r (read_header input)

-- The loop, and the deferred Close of the session; none if the fuel runs out, and a fuel
-- above the length of the input never does, since a round that goes on takes a header.
abbrev pub finish : Recv → Recv
finish r = in_session r (close r.session).0

unfoldable pub recv_loop : Env → ℕ → Bytes → Recv → Option (Recv × Option Error)
unfolding round close
recv_loop env zero input r = none
recv_loop env (suc fuel) input r = elim (round env input r) [
  | stop r' e ↦ some (finish r', e)
  | more r' rest ↦ recv_loop env fuel rest r'
]

-- recvLoop
unfoldable pub recv : Env → Bytes → Recv → Option (Recv × Option Error)
unfolding recv_loop
recv env input r = recv_loop env (suc (length input)) input r
