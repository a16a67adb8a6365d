-- ===== src/Session/Transfer/EndToEnd.antt =====
-- A write at one end and the receive loop at the other.
use anytls_go.Common.{ℕ, ◌<◌, ◌≡◌, sym, ap, ◌∙◌, Bytes, ◌++◌, append-nil, false, none, length}
use anytls_go.Frame.{u32}
use anytls_go.Session.State.{Session}
use anytls_go.Session.Write.{Env, write_data_frame}
use anytls_go.Session.Wire.{wire}
use anytls_go.Session.Reliable.{IsReliable, write_data_frame-none}
use anytls_go.Session.Recv.{Recv, in_session, deliver, recv}
use anytls_go.Session.Frames.{encode_all}
use anytls_go.Session.Frames.Refine.{recv_reply, recv-run_frames}
use anytls_go.Session.Transfer.{IsBounded}
use anytls_go.Session.Transfer.Wrote.{IsDirect}
use anytls_go.Session.Transfer.Chunks.{write_data_frame-Streamed}
use anytls_go.Session.Transfer.Delivery.{run_frames-Spells}

-- What a peer does with the bytes of one write: exactly the data reach the stream.
abbrev pub Delivers : ℕ → Bytes → Bytes → Type 0
Delivers sid p sent =
    (env : Env) (r : Recv) (rest : Bytes)
    → r.session.closed ≡ false
    → recv env (sent ++ rest) r ≡ recv env rest (in_session r (deliver sid p r.session))

-- For a session that neither buffers nor holds buffered bytes, a stream id of 32 bits and a scheme
-- whose sizes are at most 65535: over a connection that takes every write, writing p on the stream
-- returns no error and the count of p, and adds bytes to the wire that an open peer session,
-- whatever its state and whatever bytes follow, reads as exactly p for that stream and as nothing
-- else: chunking and padding do not show.
pub write-recv :
    (env : Env) (sid : ℕ) (p : Bytes) (s : Session)
    → sid < u32
    → IsDirect s
    → IsBounded env s.padding
    → IsReliable s.conn
    → let x = write_data_frame env sid p s in
      (x.1 ≡ length p)
      × (x.2 ≡ none)
      × ((sent : Bytes) × (wire x.0.conn ≡ wire s.conn ++ sent) × Delivers sid p sent)
write-recv env sid p s small d b h =
    let t = write_data_frame-Streamed env sid p s small d b in
    let fine = write_data_frame-none env sid p s h in
    let (all_out, exact, count) = t.complete fine in
    (
      count,
      fine,
      (
        encode_all t.frames,
        sym (append-nil _)
            ∙ ap (λ v. wire (write_data_frame env sid p s).0.conn ++ v) (sym all_out)
            ∙ t.grown,
        λ env' r rest live.
            recv-run_frames env' t.frames rest r t.well_formed
            ∙ ap (recv_reply env' rest) (run_frames-Spells env' r t.spells live)
            ∙ ap (λ q. recv env' rest (in_session r (deliver sid q r.session))) exact,
      ),
    )
