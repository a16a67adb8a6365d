-- ===== src/Session/Invariant.antt =====
-- The limit on the streams of a server's session, and that every write keeps it.
pub mod Steps
pub mod Reactions
pub mod Runs
use mathlib.Core.Bool.{false≢true}
use anytls_go.Common.{
  ℕ, ◌+◌, ◌%◌, ◌≤◌, ◌≡◌, ◌≢◌, refl, sym, ap, ◌∙◌, subst, Bytes, List, [], ◌∷◌, ◌++◌, Option, none,
  some, Bool, true, false, All, All-append, length, ltb, if_elim, if◌then◌else◌, arith, Error,
  Result, ok, err,
}
use anytls_go.Frame.{Frame, encode, u32}
use anytls_go.Session.Conn
use anytls_go.Session.Conn.{Conn, wait_write}
use anytls_go.Session.State.{
  Session, Stream, die, is_alive, close_locally, close_all, close_events, close,
}
use anytls_go.Session.Write.{
  Env, with_conn, send, arm, disarm, do_write_conn, or_close, granted, write_control_frame,
}
use anytls_go.Session.Streams.{max_server_streams}

-- A server keeps to its limit.
pub record IsCapped (s : Session) : Type 0 where
  pub capped : s.is_client ≡ false → length s.streams ≤ max_server_streams

pub close-IsCapped : (s : Session) → IsCapped s → IsCapped (close s).0
unfolding close
close-IsCapped s v =
    if_elim {A = Session × Result (Unit {0})} (λ x. IsCapped x.0) s.closed _ _ (λ e. v)
      (λ e. record { capped = λ h. omega arith })

-- What a write leaves alone.
pub record Keeps (s t : Session) : Type 0 where
  pub same_streams : t.streams ≡ s.streams
  pub same_gone : t.gone ≡ s.gone
  pub same_closed : t.closed ≡ s.closed
  pub same_role : t.is_client ≡ s.is_client
  pub same_version : t.peer_version ≡ s.peer_version

pub Keeps-IsCapped : {s t : Session} → Keeps s t → IsCapped s → IsCapped t
Keeps-IsCapped k v = record {
  capped = λ h.
      subst (λ m. length m ≤ max_server_streams) (sym k.same_streams)
        (v.capped (sym k.same_role ∙ h));
}

abbrev KeepsThen : Session → Session × Result ℕ → Type 0
KeepsThen s x = Keeps s x.0

pub same :
    {s t : Session}
    → t.streams ≡ s.streams
    → t.gone ≡ s.gone
    → t.closed ≡ s.closed
    → t.is_client ≡ s.is_client
    → t.peer_version ≡ s.peer_version
    → Keeps s t
same a b c d e = record {
  same_streams = a;
  same_gone = b;
  same_closed = c;
  same_role = d;
  same_version = e;
}

send-Keeps : (env : Env) (b : Bytes) (u : Bool) (s : Session) → Keeps s (send env b u s).0
unfolding send
send-Keeps env b u s =
    if_elim (KeepsThen s) s.send_padding _ _
      (λ e.
        if_elim (KeepsThen s) (ltb ((s.pkt_counter + 1) % u32) s.padding.stop) _ _
          (λ f. same refl refl refl refl refl) (λ f. same refl refl refl refl refl))
      (λ e. same refl refl refl refl refl)

Keeps-trans : {s t u : Session} → Keeps s t → Keeps t u → Keeps s u
Keeps-trans k l =
    same (l.same_streams ∙ k.same_streams) (l.same_gone ∙ k.same_gone)
      (l.same_closed ∙ k.same_closed) (l.same_role ∙ k.same_role) (l.same_version ∙ k.same_version)

arm-Keeps : (c : Bool) (s : Session) → Keeps s (arm c s)
arm-Keeps true s = same refl refl refl refl refl
arm-Keeps false s = same refl refl refl refl refl

disarm-Keeps :
    (c : Bool) (s : Session) (x : Session × Result ℕ) → Keeps s x.0 → Keeps s (disarm c x).0
disarm-Keeps true s (t, r) k = Keeps-trans k (same refl refl refl refl refl)
disarm-Keeps false s (t, r) k = k

pub do_write_conn-Keeps :
    (env : Env) (b : Bytes) (control u : Bool) (s : Session)
    → Keeps s (do_write_conn env b control u s).0
unfolding do_write_conn
do_write_conn-Keeps env b control u s =
    let t = record s { buffer = [] } in
    if_elim (KeepsThen s) s.buffering _ _ (λ e. same refl refl refl refl refl)
      (λ e. disarm-Keeps control s (send env (s.buffer ++ b) u (arm control t)) (
        Keeps-trans (Keeps-trans {t = t} (same refl refl refl refl refl) (arm-Keeps control t))
          (send-Keeps env (s.buffer ++ b) u (arm control t))))

-- A property of sessions that writes and Close keep.
abbrev pub Stable : (Session → Type 0) → Type 0
Stable P = ((s t : Session) → Keeps s t → P s → P t) × ((s : Session) → P s → P (close s).0)

or_close-Stable :
    (P : Session → Type 0) (n : ℕ) (x : Session × Result ℕ) → Stable P → P x.0 → P (or_close n x).0
or_close-Stable P n (s, ok a) st h = h
or_close-Stable P n (s, err e) st h = st.1 s h

granted-Stable :
    (P : Session → Type 0) (env : Env) (f : Frame) (x : Session × Result (Unit {0}))
    → Stable P
    → P x.0
    → P (granted env f x).0
granted-Stable P env f (s, ok a) st h =
    or_close-Stable P _ (do_write_conn env (encode f) true true s) st
      (st.0 s _ (do_write_conn-Keeps env (encode f) true true s) h)
granted-Stable P env f (s, err e) st h = st.1 s h

-- Whatever writes and Close keep, a control frame keeps.
pub write_control_frame-Stable :
    (P : Session → Type 0) (env : Env) (f : Frame) (s : Session)
    → Stable P
    → P s
    → P (write_control_frame env f s).0
unfolding write_control_frame
write_control_frame-Stable P env f s st h =
    if_elim (λ (x : Session × Result ℕ). P x.0) s.conn.limited _ _
      (λ e.
        granted-Stable P env f (with_conn s (wait_write (length (encode f)) s.conn)) st
          (st.0 s _ (same refl refl refl refl refl) h))
      (λ e.
        or_close-Stable P _ (do_write_conn env (encode f) true false s) st
          (st.0 s _ (do_write_conn-Keeps env (encode f) true false s) h))

IsCapped-Stable : Stable IsCapped
IsCapped-Stable = (λ s t k. Keeps-IsCapped k, close-IsCapped)

pub write_control_frame-IsCapped :
    (env : Env) (f : Frame) (s : Session) → IsCapped s → IsCapped (write_control_frame env f s).0
write_control_frame-IsCapped env f s = write_control_frame-Stable IsCapped env f s IsCapped-Stable
