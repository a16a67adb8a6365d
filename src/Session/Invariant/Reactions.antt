-- ===== src/Session/Invariant/Reactions.antt =====
-- The reaction to a frame keeps the limit.
use anytls_go.Common.{
  ℕ, ◌≤◌, ◌<◌, ◌≡◌, refl, sym, ◌∙◌, subst, Bytes, List, [], ◌∷◌, Option, none, some, Bool, true,
  false, not, ◌&&◌, leb, length, if_elim, arith, Result, ok, err, remote, codes, ◌=b◌,
}
use anytls_go.Common.Maps.{lookup, insert, nat_key, length-insert}
use anytls_go.Frame.{
  Command, waste, syn, psh, fin, settings, alert, update_padding_scheme, syn_ack, heart_request,
  heart_response, server_settings, unknown, Frame, new_frame,
}
use anytls_go.StringMap.{from_bytes, get}
use anytls_go.Session.State.{Session, Stream, new_stream}
use anytls_go.Session.Write.{Env, write_control_frame}
use anytls_go.Session.Streams.{
  max_server_streams, accept_case, accept_stream, refuse_stream, refusal,
}
use anytls_go.Session.Recv.{
  Recv, Round, more, in_session, or_stop, on_syn, feed, deliver, close_remote, send_scheme,
  send_version, at_least, version, version_frame, scheme_frame, on_settings, on_update, on_alert,
  on_server_settings, set_version,
}
use anytls_go.Session.Frames.{Reply, go, halt, replied, unless_empty, reply_write, react}
use anytls_go.Session.Invariant.{IsCapped, write_control_frame-IsCapped}
use anytls_go.Session.Invariant.Steps.{adjust-IsCapped, close_with_error-IsCapped, on_fin-IsCapped}

-- Sessions that differ elsewhere.
pub elsewhere :
    {s t : Session} → t.streams ≡ s.streams → t.is_client ≡ s.is_client → IsCapped s → IsCapped t
elsewhere a d v = record {
  capped = λ h. subst (λ m. length m ≤ max_server_streams) (sym a) (v.capped (sym d ∙ h));
}

pub insert-IsCapped :
    (sid : ℕ) (s : Session)
    → (s.is_client ≡ false → length s.streams < max_server_streams)
    → IsCapped (record s { streams = insert sid (new_stream sid) s.streams })
insert-IsCapped sid s room = record {
  capped = λ h. omega (arith, length-insert sid (new_stream sid) s.streams, room h);
}

abbrev refusal_alert : Frame
refusal_alert = record { cmd = alert; sid = 0; payload = codes "client did not send its settings" }

pub control-IsCapped :
    (env : Env) (f : Frame) (s : Session) → IsCapped s → IsCapped (write_control_frame env f s).0
control-IsCapped env f s v = write_control_frame-IsCapped env f s v

deliver-IsCapped : (sid : ℕ) (p : Bytes) (s : Session) → IsCapped s → IsCapped (deliver sid p s)
unfolding deliver
deliver-IsCapped sid p s v = adjust-IsCapped sid (feed p) s v

accept-IsCapped : (sid : ℕ) (s : Session) → IsCapped s → IsCapped (accept_stream sid s).0
unfolding accept_stream
accept-IsCapped sid s v = accepted (lookup sid s.streams)
  where
    accepted : (o : Option Stream) → IsCapped (accept_case sid s o).0
    accepted (some st) = v
    accepted none =
        if_elim {A = Session × Bool} (λ x. IsCapped x.0)
          (not s.is_client && leb max_server_streams (length s.streams)) _ _ (λ e. v)
          (λ e. elsewhere refl refl (insert-IsCapped sid s (λ server. ground (arith, server))))

abbrev pub ReplyValid : Reply → Type 0
ReplyValid (go r) = IsCapped r.session
ReplyValid (halt r e) = IsCapped r.session

unless_empty-Valid :
    (p : Bytes) (x : Reply) (r : Recv)
    → ReplyValid x
    → IsCapped r.session
    → ReplyValid (unless_empty p x r)
unless_empty-Valid [] x r h v = v
unless_empty-Valid (b ∷ p) x r h v = h

or_stop-Valid :
    (g : Bool) (x : Session × Result ℕ) (k : Session → Round)
    → IsCapped x.0
    → ((s : Session) → IsCapped s → ReplyValid (replied (k s)))
    → ReplyValid (replied (or_stop g x k))
or_stop-Valid g (s, ok n) k v h = h s v
or_stop-Valid g (s, err e) k v h = v

on_syn-Valid :
    (env : Env) (sid : ℕ) (r : Recv)
    → IsCapped r.session
    → ReplyValid (replied (on_syn env sid [] r))
unfolding on_syn refuse_stream
on_syn-Valid env sid r v =
    if_elim (λ x. ReplyValid (replied x)) (not r.session.is_client && not r.got_settings) _ _
      (λ e. control-IsCapped env refusal_alert r.session v)
      (λ e.
        let w = accept-IsCapped sid r.session v in
        if_elim (λ x. ReplyValid (replied x)) (accept_stream sid r.session).1 _ _ (λ f. w)
          (λ f.
            or_stop-Valid r.got_settings (refuse_stream env sid (accept_stream sid r.session).0)
              (λ s. more (in_session r s) [])
              (control-IsCapped env (refusal (accept_stream sid r.session).0 sid)
                (accept_stream sid r.session).0 w)
              (λ s z. z)))

send_scheme-IsCapped :
    (env : Env) (m : List (Bytes × Bytes)) (s : Session)
    → IsCapped s
    → IsCapped (send_scheme env m s).0
unfolding send_scheme
send_scheme-IsCapped env m s v =
    if_elim {A = Session × Result ℕ} (λ x. IsCapped x.0)
      (get m (codes "padding-md5") =b s.padding.md5) _ _ (λ e. v)
      (λ e. control-IsCapped env (scheme_frame s) s v)

send_version-IsCapped :
    (env : Env) (o : Option ℕ) (s : Session) → IsCapped s → IsCapped (send_version env o s).0
send_version-IsCapped env none s v = v
send_version-IsCapped env (some n) s v =
    control-IsCapped env version_frame (record s { peer_version = n }) (elsewhere refl refl v)

on_settings-Valid :
    (env : Env) (p : Bytes) (r : Recv)
    → IsCapped r.session
    → ReplyValid (replied (on_settings env p [] r))
unfolding on_settings
on_settings-Valid env p r v =
    if_elim (λ x. ReplyValid (replied x)) r.session.is_client _ _ (λ e. v)
      (λ e.
        or_stop-Valid true (send_scheme env (from_bytes p) r.session) _
          (send_scheme-IsCapped env (from_bytes p) r.session v)
          (λ s w.
            or_stop-Valid true (send_version env (at_least 2 (version (from_bytes p))) s)
              (λ t. more (record { session = t; got_settings = true }) [])
              (send_version-IsCapped env (at_least 2 (version (from_bytes p))) s w) (λ t z. z)))

set_version-IsCapped : (o : Option ℕ) (s : Session) → IsCapped s → IsCapped (set_version o s)
set_version-IsCapped none s v = v
set_version-IsCapped (some n) s v = elsewhere refl refl v

on_server_settings-IsCapped :
    (p : Bytes) (s : Session) → IsCapped s → IsCapped (on_server_settings p s)
unfolding on_server_settings
on_server_settings-IsCapped p s v =
    if_elim IsCapped s.is_client _ _
      (λ e. set_version-IsCapped (at_least 0 (version (from_bytes p))) s v) (λ e. v)

on_update-IsCapped :
    (env : Env) (p : Bytes) (s : Session) → IsCapped s → IsCapped (on_update env p s)
unfolding on_update
on_update-IsCapped env p s v =
    if_elim IsCapped (s.is_client && not env.debug_padding) _ _ (λ e. elsewhere refl refl v)
      (λ e. v)

on_alert-IsCapped : (p : Bytes) (s : Session) → IsCapped s → IsCapped (on_alert p s)
on_alert-IsCapped p s v = if_elim IsCapped s.is_client _ _ (λ e. elsewhere refl refl v) (λ e. v)

close_remote-IsCapped :
    (env : Env) (p : Bytes) (o : Option Stream) (s : Session)
    → IsCapped s
    → IsCapped (close_remote env p o s)
close_remote-IsCapped env p none s v = v
close_remote-IsCapped env p (some st) s v = close_with_error-IsCapped env (remote p) st s v

reply_write-Valid :
    (r : Recv) (x : Session × Result ℕ)
    → IsCapped x.0
    → ReplyValid (reply_write r (in_session r x.0) x.1)
unfolding reply_write
reply_write-Valid r (s, ok n) v = v
reply_write-Valid r (s, err e) v = v

pub react-Valid :
    (env : Env) (c : Command) (sid : ℕ) (p : Bytes) (r : Recv)
    → IsCapped r.session
    → ReplyValid (react env c sid p r)
unfolding react
react-Valid env psh sid p r v = unless_empty-Valid p _ r (deliver-IsCapped sid p r.session v) v
react-Valid env syn sid p r v = on_syn-Valid env sid r v
react-Valid env syn_ack sid p r v =
    let s = record r.session { syn_pending = false } in
    let w : IsCapped s = elsewhere refl refl v in
    unless_empty-Valid p (go (in_session r (close_remote env p (lookup sid s.streams) s)))
      (in_session r s) (close_remote-IsCapped env p (lookup sid s.streams) s w) w
react-Valid env fin sid p r v = on_fin-IsCapped sid r.session v
react-Valid env waste sid p r v = v
react-Valid env settings sid p r v =
    unless_empty-Valid p (replied (on_settings env p [] r)) r (on_settings-Valid env p r v) v
react-Valid env alert sid p r v =
    unless_empty-Valid p (halt (in_session r (on_alert p r.session)) none) r
      (on_alert-IsCapped p r.session v) v
react-Valid env update_padding_scheme sid p r v =
    unless_empty-Valid p (go (in_session r (on_update env p r.session))) r
      (on_update-IsCapped env p r.session v) v
react-Valid env heart_request sid p r v =
    reply_write-Valid r (write_control_frame env (new_frame heart_response sid) r.session)
      (control-IsCapped env (new_frame heart_response sid) r.session v)
react-Valid env heart_response sid p r v = v
react-Valid env server_settings sid p r v =
    unless_empty-Valid p (go (in_session r (on_server_settings p r.session))) r
      (on_server_settings-IsCapped p r.session v) v
react-Valid env (unknown b) sid p r v = v
