-- ===== src/Session/Invariant/Runs.antt =====
-- The limit holds after any sequence of steps.
use anytls_go.Common.{
  ℕ, ◌≡◌, refl, sym, ◌∙◌, Bytes, List, [], ◌∷◌, Option, none, some, Bool, true, false, ◌&&◌, ltb,
  leb, length, take, drop, zero, suc, ◌==◌, if_elim, if◌then◌else◌, arith, Error, Result, ok, err,
  closed_pipe, ◌+◌, ◌%◌,
}
use mathlib.Core.Bool.{false≢true}
use anytls_go.Common.Maps.{lookup, nat_key}
use anytls_go.Frame.{syn, new_frame, encode, max_frame_payload, u32}
use anytls_go.Session.Conn.{Conn}
use anytls_go.Padding.{PaddingFactory}
use anytls_go.Session.State.{Session, Stream, new_session, close}
use anytls_go.Session.Write.{
  Env, psh_frame, write_control_frame, write_data_chunk, next_chunk, write_chunks, write_data_frame,
}
use anytls_go.Session.Streams.{
  register, open_stream, report_frame, syn_timeout, Outcome, message, done, report_case, report,
  count_rx, count_tx, write_case, write_stream, read_stream, add_rx, add_tx, set_reported,
  close_stream,
}
use anytls_go.Session.Recv.{Recv}
use anytls_go.Session.Frames.{Reply, go, halt, on_frame}
use anytls_go.Session.Steps.{
  Action, receive, open_next, write, read, shut, stale_close, answer, timeout, shut_all, after,
  on_stream, step_session, step, run,
}
use anytls_go.Session.Invariant.{
  IsCapped, close-IsCapped, Stable, Keeps-IsCapped, write_control_frame-Stable, do_write_conn-Keeps,
}
use anytls_go.Session.Invariant.Steps.{
  adjust-IsCapped, stream_closed-IsCapped, close_with_error-IsCapped,
}
use anytls_go.Session.Invariant.Reactions.{
  elsewhere, insert-IsCapped, control-IsCapped, ReplyValid, react-Valid,
}

after-IsCapped : (x : Reply) → ReplyValid x → IsCapped (after x).session
after-IsCapped (go r) v = v
after-IsCapped (halt r e) v = close-IsCapped r.session v

-- A client's session that is not limited in the number of its streams.
record IsClient (s : Session) : Type 0 where
  valid : IsCapped s
  client : s.is_client ≡ true

close_role : (s : Session) → (close s).0.is_client ≡ s.is_client
unfolding close
close_role s =
    if_elim {A = Session × Result (Unit {0})} (λ x. x.0.is_client ≡ s.is_client) s.closed _ _
      (λ e. refl) (λ e. refl)

IsClient-Stable : Stable IsClient
IsClient-Stable = (
  λ s t k c. record { valid = Keeps-IsCapped k c.valid; client = k.same_role ∙ c.client },
  λ s c. record { valid = close-IsCapped s c.valid; client = close_role s ∙ c.client },
)

register-IsCapped : (sid : ℕ) (x : Session × Result ℕ) → IsClient x.0 → IsCapped (register sid x).0
register-IsCapped sid (s, err e) c = c.valid
register-IsCapped sid (s, ok n) c =
    if_elim {A = Session × Result ℕ} (λ x. IsCapped x.0) s.closed _ _
      (λ e. elsewhere refl refl c.valid)
      (λ e.
        elsewhere refl refl
          (insert-IsCapped sid s (λ server. absurd (false≢true (sym server ∙ c.client)))))

-- The counter of stream ids and the watcher do not matter.
numbered :
    (sid : ℕ) (pending : Bool) (s : Session)
    → IsClient s
    → IsClient (record s { stream_id = sid; syn_pending = pending })
numbered sid pending s c = record { valid = elsewhere refl refl c.valid; client = c.client }

open_stream-IsCapped : (env : Env) (s : Session) → IsClient s → IsCapped (open_stream env s).0
unfolding open_stream
open_stream-IsCapped env s c =
    let sid = (s.stream_id + 1) % u32 in
    let pending = if leb 2 sid && leb 2 s.peer_version then true else s.syn_pending in
    let t : Session = record s { stream_id = sid; syn_pending = pending } in
    if_elim {A = Session × Result ℕ} (λ x. IsCapped x.0) s.closed _ _ (λ e. c.valid)
      (λ e. register-IsCapped sid (write_control_frame env (new_frame syn sid) t) (
        write_control_frame-Stable IsClient env (new_frame syn sid) t IsClient-Stable
          (numbered sid pending s c)))

counted-IsCapped : (n : ℕ) (st : Stream) (s : Session) → IsCapped s → IsCapped (count_rx n st s)
unfolding count_rx
counted-IsCapped n st s v =
    if_elim IsCapped (ltb 0 n) _ _ (λ e. elsewhere refl refl (adjust-IsCapped st.id (add_rx n) s v))
      (λ e. v)

read-IsCapped : (n : ℕ) (st : Stream) (s : Session) → IsCapped s → IsCapped (count_tx n st s)
unfolding count_tx
read-IsCapped n st s v =
    if_elim IsCapped (ltb 0 n) _ _ (λ e. elsewhere refl refl (adjust-IsCapped st.id (add_tx n) s v))
      (λ e. v)

next_chunk-IsCapped :
    (x : Session × Result ℕ) (written : ℕ) (k : Session → Session × ℕ × Option Error)
    → IsCapped x.0
    → ((s : Session) → IsCapped s → IsCapped (k s).0)
    → IsCapped (next_chunk x written k).0
next_chunk-IsCapped (s, ok n) written k v h = h s v
next_chunk-IsCapped (s, err e) written k v h = v

chunks-IsCapped :
    (env : Env) (sid fuel : ℕ) (p : Bytes) (written : ℕ) (s : Session)
    → IsCapped s
    → IsCapped (write_chunks env sid fuel p written s).0
unfolding write_chunks
chunks-IsCapped env sid zero p written s v = v
chunks-IsCapped env sid (suc fuel) p written s v =
    let q = take max_frame_payload p in
    let left = drop (length q) p in
    next_chunk-IsCapped (write_data_chunk env sid q s) written _
      (unfold write_data_chunk in
        Keeps-IsCapped (do_write_conn-Keeps env (encode (psh_frame sid q)) false false s) v)
      (λ t w.
        if_elim {A = Session × ℕ × Option Error} (λ x. IsCapped x.0) (length left == 0) _ _ (λ e. w)
          (λ e. chunks-IsCapped env sid fuel left (written + length q) t w))

write_case-IsCapped :
    (env : Env) (st : Stream) (p : Bytes) (o : Option Error) (s : Session)
    → IsCapped s
    → IsCapped (write_case env st p o s).0
write_case-IsCapped env st p (some e) s v = v
write_case-IsCapped env st p none s v =
    unfold write_data_frame in
    counted-IsCapped _ st _ (chunks-IsCapped env st.id (suc (length p)) p 0 s v)

write_stream-IsCapped :
    (env : Env) (expired : Bool) (st : Stream) (p : Bytes) (s : Session)
    → IsCapped s
    → IsCapped (write_stream env expired st p s).0
unfolding write_stream
write_stream-IsCapped env expired st p s v =
    if_elim {A = Session × ℕ × Option Error} (λ x. IsCapped x.0) expired _ _ (λ e. v)
      (λ e. write_case-IsCapped env st p st.die_err s v)

done-IsCapped : (x : Session × Result ℕ) → IsCapped x.0 → IsCapped (done x).0
done-IsCapped (s, ok n) v = v
done-IsCapped (s, err e) v = v

report_case-IsCapped :
    (env : Env) (st : Stream) (o : Option Bytes) (s : Session)
    → IsCapped s
    → IsCapped (report_case env st o s).0
report_case-IsCapped env st none s v = v
report_case-IsCapped env st (some text) s v =
    if_elim {A = Session × Result (Unit {0})} (λ x. IsCapped x.0) (leb 2 s.peer_version) _ _
      (λ e. done-IsCapped _ (control-IsCapped env (report_frame st.id text) s v)) (λ e. v)

report-IsCapped :
    (env : Env) (st : Stream) (o : Outcome) (s : Session)
    → IsCapped s
    → IsCapped (report env st o s).0
unfolding report
report-IsCapped env st o s v =
    if_elim {A = Session × Result (Unit {0})} (λ x. IsCapped x.0) st.reported _ _ (λ e. v)
      (λ e. report_case-IsCapped env st (message o) _ (adjust-IsCapped st.id set_reported s v))

on_stream-IsCapped :
    (o : Option Stream) (f : Stream → Session) (s : Session)
    → IsCapped s
    → ((st : Stream) → IsCapped (f st))
    → IsCapped (on_stream o f s)
on_stream-IsCapped none f s v h = v
on_stream-IsCapped (some st) f s v h = h st

step_session-IsCapped :
    (env : Env) (a : Action) (s : Session) → IsCapped s → IsCapped (step_session env a s)
unfolding step_session
step_session-IsCapped env (receive f) s v = v
step_session-IsCapped env open_next s v =
    if_elim IsCapped s.is_client _ _
      (λ e. open_stream-IsCapped env s (record { valid = v; client = e })) (λ e. v)
step_session-IsCapped env (write sid expired p) s v =
    on_stream-IsCapped (lookup sid s.streams) _ s v
      (λ st. write_stream-IsCapped env expired st p s v)
step_session-IsCapped env (read sid got) s v =
    on_stream-IsCapped (lookup sid s.streams) _ s v
      (λ st. unfold read_stream in read-IsCapped got.0 st s v)
step_session-IsCapped env (shut sid) s v =
    on_stream-IsCapped (lookup sid s.streams) _ s v
      (λ st. unfold close_stream in close_with_error-IsCapped env closed_pipe st s v)
step_session-IsCapped env (answer sid o) s v =
    on_stream-IsCapped (lookup sid s.streams) _ s v (λ st. report-IsCapped env st o s v)
step_session-IsCapped env (stale_close sid) s v = stream_closed-IsCapped env sid s v
step_session-IsCapped env timeout s v =
    unfold syn_timeout in if_elim IsCapped s.syn_pending _ _ (λ e. close-IsCapped s v) (λ e. v)
step_session-IsCapped env shut_all s v = close-IsCapped s v

-- Every step keeps the limit.
pub step-IsCapped :
    (env : Env) (a : Action) (r : Recv) → IsCapped r.session → IsCapped (step env a r).session
unfolding step
step-IsCapped env (receive f) r v =
    after-IsCapped (on_frame env f r) (unfold on_frame in react-Valid env f.cmd f.sid f.payload r v)
step-IsCapped env open_next r v = step_session-IsCapped env open_next r.session v
step-IsCapped env (write sid expired p) r v =
    step_session-IsCapped env (write sid expired p) r.session v
step-IsCapped env (read sid got) r v = step_session-IsCapped env (read sid got) r.session v
step-IsCapped env (shut sid) r v = step_session-IsCapped env (shut sid) r.session v
step-IsCapped env (answer sid o) r v = step_session-IsCapped env (answer sid o) r.session v
step-IsCapped env (stale_close sid) r v = step_session-IsCapped env (stale_close sid) r.session v
step-IsCapped env timeout r v = step_session-IsCapped env timeout r.session v
step-IsCapped env shut_all r v = step_session-IsCapped env shut_all r.session v

run-IsCapped :
    (env : Env) (actions : List Action) (r : Recv)
    → IsCapped r.session
    → IsCapped (run env actions r).session
unfolding run
run-IsCapped env [] r v = v
run-IsCapped env (a ∷ later) r v = run-IsCapped env later (step env a r) (step-IsCapped env a r v)

-- After any sequence of frames, opens, reads, writes, closes, reports and timeouts on a new session,
-- a server's session has at most maxServerStreams streams in its map; also if frames are handled
-- after Close, and if streams close that a later one of their id has displaced.
pub run-new-IsCapped :
    (env : Env) (is_client : Bool) (c : Conn) (f : PaddingFactory) (actions : List Action)
    → IsCapped
        (run env actions
          (record { session = new_session is_client c f; got_settings = false })).session
run-new-IsCapped env is_client c f actions =
    run-IsCapped env actions _ (unfold new_session in record { capped = λ h. omega arith })
