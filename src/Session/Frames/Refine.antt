-- ===== src/Session/Frames/Refine.antt =====
-- recvLoop on the bytes of well-formed frames does what the frames ask for.
use anytls_go.Common.{
  ℕ, suc, ◌≡◌, refl, sym, ap, ◌∙◌, Bytes, List, [], ◌∷◌, ◌++◌, append_assoc, Option, some, Bool,
  true, false, length, ltb, if◌then◌else◌, lt→ltb, Error, closed_pipe, Result, ok, err, All, arith,
  not, ◌&&◌, Bool-cases, inl, inr,
}
use anytls_go.Frame.{
  Command, waste, syn, psh, fin, settings, alert, update_padding_scheme, syn_ack, heart_request,
  heart_response, server_settings, unknown, Frame, new_frame, encode, read_header,
}
use anytls_go.Frame.Codec.{Fits, read_header-encode, read_full-append}
use anytls_go.StringMap.{from_bytes}
use anytls_go.Session.State.{Session}
use anytls_go.Session.Write.{Env, write_control_frame}
use anytls_go.Session.Streams.{accept_stream, refuse_stream}
use anytls_go.Session.Recv.{
  Recv, Round, more, stop, in_session, took, with_payload, or_stop, on_syn, on_syn_ack, on_settings,
  send_scheme, send_version, at_least, version, dispatch, with_header, round, finish, recv,
}
use anytls_go.Session.Recv.Total.{recv_case, recv_step}
use anytls_go.Session.Frames.{
  Reply, go, halt, replied, unless_empty, reply_write, react, on_frame, run_frames, encode_all,
  Carries,
}

-- The loop goes on with what follows the frame.
abbrev pub resume : Bytes → Reply → Round
resume rest (go r) = more r rest
resume rest (halt r e) = stop r e

-- A switch case that reads a payload.
payload_resume :
    (p rest : Bytes) (r r' : Recv) (k : Bytes → Bytes → Round) (x : Reply)
    → k p rest ≡ resume rest x
    → (if ltb 0 (length p) then with_payload (length p) (p ++ rest) r' k else more r (p ++ rest))
      ≡ resume rest (unless_empty p x r)
payload_resume [] rest r r' k x h = refl
payload_resume (b ∷ p) rest r r' k x h =
    rw (lt→ltb 0 (suc (length p)) (omega arith), if◌then◌else◌)
      (ap (took r' k) (read_full-append (b ∷ p) rest) ∙ h)

unless_same : (p : Bytes) (r : Recv) → unless_empty p (go r) r ≡ go r
unless_same [] r = refl
unless_same (b ∷ p) r = refl

or_stop-resume :
    (g : Bool) (x : Session × Result ℕ) (rest : Bytes) (k k' : Session → Round)
    → ((s : Session) → k s ≡ resume rest (replied (k' s)))
    → or_stop g x k ≡ resume rest (replied (or_stop g x k'))
or_stop-resume g (s, ok a) rest k k' h = h s
or_stop-resume g (s, err e) rest k k' h = refl

if_resume :
    (b : Bool) (rest : Bytes) (x y x' y' : Round)
    → x ≡ resume rest (replied x')
    → y ≡ resume rest (replied y')
    → (if b then x else y) ≡ resume rest (replied (if b then x' else y'))
if_resume true rest x y x' y' h k = h
if_resume false rest x y x' y' h k = k

on_syn-resume :
    (env : Env) (sid : ℕ) (rest : Bytes) (r : Recv)
    → on_syn env sid rest r ≡ resume rest (replied (on_syn env sid [] r))
unfolding on_syn
on_syn-resume env sid rest r =
    if_resume (not r.session.is_client && not r.got_settings) rest _ _ _ _ refl (
      if_resume (accept_stream sid r.session).1 rest _ _ _ _ refl (
        or_stop-resume r.got_settings (refuse_stream env sid (accept_stream sid r.session).0) rest
          (λ s. more (in_session r s) rest) (λ s. more (in_session r s) []) (λ s. refl)))

on_settings-resume :
    (env : Env) (p rest : Bytes) (r : Recv)
    → on_settings env p rest r ≡ resume rest (replied (on_settings env p [] r))
unfolding on_settings
on_settings-resume env p rest r = if_resume r.session.is_client rest _ _ _ _ refl (
    or_stop-resume true (send_scheme env (from_bytes p) r.session) rest _ _ (λ s.
      or_stop-resume true (send_version env (at_least 2 (version (from_bytes p))) s) rest _ _
        (λ s'. refl)))

heart_resume :
    (x : Session × Result ℕ) (rest : Bytes) (r : Recv)
    → or_stop r.got_settings x (λ s. more (in_session r s) rest)
      ≡ resume rest (reply_write r (in_session r x.0) x.1)
unfolding reply_write
heart_resume (s, ok n) rest r = refl
heart_resume (s, err e) rest r = refl

dispatch-resume :
    (env : Env) (c : Command) (sid : ℕ) (p rest : Bytes) (r : Recv)
    → Carries c p
    → dispatch env c sid (length p) (p ++ rest) r ≡ resume rest (react env c sid p r)
unfolding dispatch react
dispatch-resume env psh sid p rest r h = payload_resume p rest r r _ _ refl
dispatch-resume env syn sid p rest r h = rw h (on_syn-resume env sid rest r)
dispatch-resume env syn_ack sid p rest r h = unfold on_syn_ack in payload_resume p rest _ _ _ _ refl
dispatch-resume env fin sid p rest r h = rw h (refl)
dispatch-resume env waste sid p rest r h =
    payload_resume p rest r r (λ q t. more r t) (go r) refl ∙ ap (resume rest) (unless_same p r)
dispatch-resume env settings sid p rest r h =
    payload_resume p rest r r _ _ (on_settings-resume env p rest r)
dispatch-resume env alert sid p rest r h = payload_resume p rest r r _ _ refl
dispatch-resume env update_padding_scheme sid p rest r h = payload_resume p rest r r _ _ refl
dispatch-resume env heart_request sid p rest r h =
    rw h (heart_resume (write_control_frame env (new_frame heart_response sid) r.session) rest r)
dispatch-resume env heart_response sid p rest r h = rw h (refl)
dispatch-resume env server_settings sid p rest r h = payload_resume p rest r r _ _ refl
dispatch-resume env (unknown b) sid p rest r h = rw h (refl)

-- On an open session, one round on the bytes of a frame, whose command is a named one or a number
-- above 10, whose id and payload fit their fields and that has no payload where the command takes
-- none, is the reaction to the frame, whatever bytes follow it.
pub round-encode :
    (env : Env) (f : Frame) (rest : Bytes) (r : Recv)
    → Fits f
    → Carries f.cmd f.payload
    → r.session.closed ≡ false
    → round env (encode f ++ rest) r ≡ resume rest (on_frame env f r)
unfolding round on_frame
round-encode env f rest r fits carries live =
    ap
      (λ b.
        if b then stop r (some closed_pipe) else with_header env r (read_header (encode f ++ rest)))
      live
    ∙ ap (with_header env r) (read_header-encode f rest fits)
    ∙ dispatch-resume env f.cmd f.sid f.payload rest r carries

-- What the loop returns after a run over frames.
abbrev pub recv_reply : Env → Bytes → Reply → Option (Recv × Option Error)
recv_reply env rest (go r) = recv env rest r
recv_reply env rest (halt r e) = some (finish r, e)

recv_resume :
    (env : Env) (rest : Bytes) (x : Reply) → recv_case env (resume rest x) ≡ recv_reply env rest x
recv_resume env rest (go r) = refl
recv_resume env rest (halt r e) = refl

-- A frame that a sender may put on the wire.
abbrev pub IsWellFormed : Frame → Type 0
IsWellFormed f = Fits f × Carries f.cmd f.payload

round_closed :
    (env : Env) (input : Bytes) (r : Recv)
    → r.session.closed ≡ true
    → round env input r ≡ stop r (some closed_pipe)
unfolding round
round_closed env input r h =
    ap (λ b. if b then stop r (some closed_pipe) else with_header env r (read_header input)) h

run_frames_closed :
    (env : Env) (f : Frame) (fs : List Frame) (r : Recv)
    → r.session.closed ≡ true
    → run_frames env (f ∷ fs) r ≡ halt r (some closed_pipe)
unfolding run_frames
run_frames_closed env f fs r h = ground arith

abbrev pub then_frames : Env → List Frame → Reply → Reply
then_frames env fs (go r) = run_frames env fs r
then_frames env fs (halt r e) = halt r e

pub run_frames_live :
    (env : Env) (f : Frame) (fs : List Frame) (r : Recv)
    → r.session.closed ≡ false
    → run_frames env (f ∷ fs) r ≡ then_frames env fs (on_frame env f r)
unfolding run_frames
run_frames_live env f fs r h = ground arith

reply_frames :
    (env : Env) (fs : List Frame) (rest : Bytes) (x : Reply)
    → ((r : Recv) → recv env (encode_all fs ++ rest) r ≡ recv_reply env rest (run_frames env fs r))
    → recv_reply env (encode_all fs ++ rest) x ≡ recv_reply env rest (then_frames env fs x)
reply_frames env fs rest (go r) ih = ih r
reply_frames env fs rest (halt r e) ih = refl

-- recvLoop over the bytes of frames, whose commands are named ones or numbers above 10, whose ids
-- and payloads fit their fields and that have no payload where the command takes none, whatever
-- bytes follow them, runs the frame-level machine over the frames: it is never out of step with
-- the frame boundaries, it stops where the machine halts, with the machine's result, and else goes
-- on with the bytes that follow.
pub recv-run_frames :
    (env : Env) (fs : List Frame) (rest : Bytes) (r : Recv)
    → All IsWellFormed fs
    → recv env (encode_all fs ++ rest) r ≡ recv_reply env rest (run_frames env fs r)
recv-run_frames env [] rest r w = unfold run_frames in refl
recv-run_frames env (f ∷ fs) rest r w =
    ap (λ b. recv env b r) (append_assoc (encode f) (encode_all fs) rest)
    ∙ recv_step env (encode f ++ (encode_all fs ++ rest)) r
    ∙ elim (Bool-cases r.session.closed) [
      | inl shut ↦
          ap (recv_case env) (round_closed env (encode f ++ (encode_all fs ++ rest)) r shut)
          ∙ ap (recv_reply env rest) (sym (run_frames_closed env f fs r shut))
      | inr live ↦
          ap (recv_case env) (round-encode env f (encode_all fs ++ rest) r w.0.0 w.0.1 live)
          ∙ recv_resume env (encode_all fs ++ rest) (on_frame env f r)
          ∙ reply_frames env fs rest (on_frame env f r) (λ r'. recv-run_frames env fs rest r' w.1)
          ∙ ap (recv_reply env rest) (sym (run_frames_live env f fs r live))
    ]
