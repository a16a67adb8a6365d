-- ===== src/Session/Invariant/Steps.antt =====
-- Closing a stream keeps the limit.
use anytls_go.Common.{ℕ, Option, none, some, if_elim, arith, Error, Result, ok, err}
use anytls_go.Common.Maps.{adjust, nat_key, length-delete, length-adjust}
use anytls_go.Frame.{new_frame, fin}
use anytls_go.Session.State.{Session, Stream, die, close_locally}
use anytls_go.Session.Write.{Env, write_control_frame}
use anytls_go.Session.Streams.{
  remove_stream, forget, stream_closed, close_case, run_hook, close_with_error,
}
use anytls_go.Session.Recv.{on_fin}
use anytls_go.Session.Invariant.{IsCapped, write_control_frame-IsCapped}

remove_stream-IsCapped : (sid : ℕ) (s : Session) → IsCapped s → IsCapped (remove_stream sid s)
unfolding remove_stream
remove_stream-IsCapped sid s v = record {
  capped = λ h. omega (arith, length-delete sid s.streams, v.capped h);
}

forget-IsCapped : (sid : ℕ) (x : Session × Result ℕ) → IsCapped x.0 → IsCapped (forget sid x).0
forget-IsCapped sid (s, ok n) v = remove_stream-IsCapped sid s v
forget-IsCapped sid (s, err e) v = remove_stream-IsCapped sid s v

pub stream_closed-IsCapped :
    (env : Env) (sid : ℕ) (s : Session) → IsCapped s → IsCapped (stream_closed env sid s).0
unfolding stream_closed
stream_closed-IsCapped env sid s v =
    if_elim (λ (x : Session × Result (Unit {0})). IsCapped x.0) s.closed _ _ (λ e. v)
      (λ e.
        forget-IsCapped sid (write_control_frame env (new_frame fin sid) s)
          (write_control_frame-IsCapped env (new_frame fin sid) s v))

-- A change to one stream
pub adjust-IsCapped :
    (sid : ℕ) (f : Stream → Stream) (s : Session)
    → IsCapped s
    → IsCapped (record s { streams = adjust sid f s.streams })
adjust-IsCapped sid f s v = record {
  capped = λ h. omega (arith, length-adjust sid f s.streams, v.capped h);
}

close_case-IsCapped :
    (env : Env) (e : Error) (st : Stream) (o : Option Error) (s : Session)
    → IsCapped s
    → IsCapped (close_case env e st o s).0
close_case-IsCapped env e st (some first) s v = v
close_case-IsCapped env e st none s v =
    logged (stream_closed env st.id (record s { streams = adjust st.id (die e) s.streams }))
      (stream_closed-IsCapped env st.id _ (adjust-IsCapped st.id (die e) s v))
  where
    logged : (x : Session × Result (Unit {0})) → IsCapped x.0 → IsCapped (run_hook st x).0
    logged (t, r) w = record { capped = w.capped }

pub close_with_error-IsCapped :
    (env : Env) (e : Error) (st : Stream) (s : Session)
    → IsCapped s
    → IsCapped (close_with_error env e st s).0
unfolding close_with_error
close_with_error-IsCapped env e st s = close_case-IsCapped env e st st.die_err s

pub on_fin-IsCapped : (sid : ℕ) (s : Session) → IsCapped s → IsCapped (on_fin sid s)
unfolding on_fin close_locally
on_fin-IsCapped sid s v =
    let w = remove_stream-IsCapped sid _ (adjust-IsCapped sid close_locally s v) in
    record { capped = w.capped }
