-- ===== src/Session/Frames.antt =====
-- What the receive loop promises, frame by frame and without bytes: the reaction to one frame, and
-- the run over a list of frames. Frames.Refine shows that recvLoop implements it.
pub mod Refine
use anytls_go.Common.{
  ℕ, zero, suc, Bytes, List, [], ◌∷◌, ◌++◌, Option, none, some, false, length, ltb, if◌then◌else◌,
  Error, closed_pipe, Result, ok, err, codes, ◌≡◌,
}
use anytls_go.Common.Maps.{lookup, nat_key}
use anytls_go.Frame.{
  Command, waste, syn, psh, fin, settings, alert, update_padding_scheme, syn_ack, heart_request,
  heart_response, server_settings, unknown, Frame, new_frame, encode,
}
use anytls_go.Session.Write.{Env, write_control_frame}
use anytls_go.Session.Recv.{
  Recv, Round, more, stop, in_session, deliver, on_syn, close_remote, on_fin, on_settings,
  on_update, on_alert, on_server_settings,
}

pub data Reply : Type 0 where
  go : Recv → Reply
  halt : Recv → Option Error → Reply

-- A reaction that does not depend on what follows the frame.
abbrev pub replied : Round → Reply
replied (more r rest) = go r
replied (stop r e) = halt r e

abbrev pub unless_empty : Bytes → Reply → Recv → Reply
unless_empty [] x r = go r
unless_empty (b ∷ p) x r = x

unfoldable pub reply_write : Recv → Recv → Result ℕ → Reply
reply_write r r' (ok n) = go r'
reply_write r r' (err e) = halt r' (some e)

unfoldable pub react : Env → Command → ℕ → Bytes → Recv → Reply
react env psh sid p r = unless_empty p (go (in_session r (deliver sid p r.session))) r
react env syn sid p r = replied (on_syn env sid [] r)
react env syn_ack sid p r =
    let s = record r.session { syn_pending = false } in
    unless_empty p (go (in_session r (close_remote env p (lookup sid s.streams) s)))
      (in_session r s)
react env fin sid p r = go (in_session r (on_fin sid r.session))
react env waste sid p r = go r
react env settings sid p r = unless_empty p (replied (on_settings env p [] r)) r
react env alert sid p r = unless_empty p (halt (in_session r (on_alert p r.session)) none) r
react env update_padding_scheme sid p r =
    unless_empty p (go (in_session r (on_update env p r.session))) r
react env heart_request sid p r =
    let x = write_control_frame env (new_frame heart_response sid) r.session in
    reply_write r (in_session r x.0) x.1
react env heart_response sid p r = go r
react env server_settings sid p r =
    unless_empty p (go (in_session r (on_server_settings p r.session))) r
react env (unknown b) sid p r = go r

unfoldable pub on_frame : Env → Frame → Recv → Reply
unfolding react
on_frame env f r = react env f.cmd f.sid f.payload r

-- A closed session ends the loop before the next frame.
unfoldable pub run_frames : Env → List Frame → Recv → Reply
unfolding on_frame
run_frames env [] r = go r
run_frames env (f ∷ fs) r =
    if r.session.closed
    then halt r (some closed_pipe)
    else elim (on_frame env f r) [ go r' ↦ run_frames env fs r' | halt r' e ↦ halt r' e ]

abbrev pub encode_all : List Frame → Bytes
encode_all [] = []
encode_all (f ∷ fs) = encode f ++ encode_all fs

-- The commands whose payload recvLoop reads; the others must come without one.
abbrev pub Carries : Command → Bytes → Type 0
Carries psh p = Unit {0}
Carries syn_ack p = Unit {0}
Carries waste p = Unit {0}
Carries settings p = Unit {0}
Carries alert p = Unit {0}
Carries update_padding_scheme p = Unit {0}
Carries server_settings p = Unit {0}
Carries c p = p ≡ []
