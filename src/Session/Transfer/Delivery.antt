-- ===== src/Session/Transfer/Delivery.antt =====
-- The receiving end: the frames of one stream's data, run by the frame-level machine.
use anytls_go.Common.{
  ℕ, ◌≡◌, refl, sym, ap, ◌∙◌, fun_ext, Bytes, List, [], ◌∷◌, ◌++◌, append_assoc, append-nil, false,
  arith,
}
use anytls_go.Common.Maps.{adjust, adjust-adjust, adjust_same, nat_key}
use anytls_go.Frame.{Frame}
use anytls_go.Session.State.{Session, Stream}
use anytls_go.Session.Write.{Env, psh_frame}
use anytls_go.Session.Recv.{Recv, in_session, feed, deliver}
use anytls_go.Session.Frames.{go, on_frame, run_frames}
use anytls_go.Session.Frames.Refine.{run_frames_live, then_frames}
use anytls_go.Session.Transfer.{waste_of, Spells, nothing, chunk, filler}

feed_nothing : (st : Stream) → feed [] st ≡ st
feed_nothing st = ground (arith, append-nil st.received)

feed-feed : (p q : Bytes) (st : Stream) → feed q (feed p st) ≡ feed (p ++ q) st
feed-feed p q st = ground (arith, append_assoc st.received p q)

deliver_nothing : (sid : ℕ) (s : Session) → deliver sid [] s ≡ s
unfolding deliver
deliver_nothing sid s =
    ap (λ m. record s { streams = m }) (adjust_same sid (feed []) s.streams feed_nothing)

deliver-deliver :
    (sid : ℕ) (p q : Bytes) (s : Session) → deliver sid q (deliver sid p s) ≡ deliver sid (p ++ q) s
unfolding deliver
deliver-deliver sid p q s =
    ap (λ m. record s { streams = m })
      (adjust-adjust sid (feed p) (feed q) s.streams
        ∙ ap (λ f. adjust sid f s.streams) (fun_ext (feed-feed p q)))

abbrev delivered : ℕ → Bytes → Recv → Recv
delivered sid p r = in_session r (deliver sid p r.session)

on_chunk :
    (env : Env) (sid : ℕ) (q : Bytes) (r : Recv)
    → on_frame env (psh_frame sid q) r ≡ go (delivered sid q r)
unfolding on_frame
on_chunk env sid [] r = ap (λ s. go (in_session r s)) (sym (deliver_nothing sid r.session))
on_chunk env sid (b ∷ q) r = refl

on_filler : (env : Env) (l : ℕ) (r : Recv) → on_frame env (waste_of l) r ≡ go r
unfolding on_frame
on_filler env l r = refl

deliver-closed : (sid : ℕ) (q : Bytes) (s : Session) → (deliver sid q s).closed ≡ s.closed
unfolding deliver
deliver-closed sid q s = refl

-- On an open session, running frames that spell data of one stream, with padding between them,
-- hands exactly the data to the stream and changes nothing else.
pub run_frames-Spells :
    (env : Env) {sid : ℕ} {fs : List Frame} {p : Bytes} (r : Recv)
    → Spells sid fs p
    → r.session.closed ≡ false
    → run_frames env fs r ≡ go (in_session r (deliver sid p r.session))
run_frames-Spells env {sid} r nothing live =
    unfold run_frames in ap (λ s. go (in_session r s)) (sym (deliver_nothing sid r.session))
run_frames-Spells env {sid} r (chunk q {fs} {p} w) live =
    run_frames_live env (psh_frame sid q) fs r live
    ∙ ap (then_frames env fs) (on_chunk env sid q r)
    ∙ run_frames-Spells env (delivered sid q r) w (deliver-closed sid q r.session ∙ live)
    ∙ ap (λ s. go (in_session r s)) (deliver-deliver sid q p r.session)
run_frames-Spells env {sid} r (filler l {fs} {p} w) live =
    run_frames_live env (waste_of l) fs r live
    ∙ ap (then_frames env fs) (on_filler env l r)
    ∙ run_frames-Spells env r w live
