-- ===== src/Session/Transfer/Chunks.antt =====
-- The sending end: what writeDataFrame puts on the wire.
use anytls_go.Common.{
  ℕ, zero, suc, ◌+◌, ◌-◌, ◌≤◌, ◌<◌, ◌≡◌, ◌≢◌, ==_iff, refl, sym, ap, ◌∙◌, subst, Bytes, List, [],
  ◌∷◌, ◌++◌, append_assoc, append-nil, Option, none, false, All, length, take, drop, length-take,
  length-drop, length-zero, if_elim, ◌==◌, arith, min, Error, Result, ok, err,
}
use mathlib.Core.Bool.{false≢true}
use anytls_go.Frame.{Frame, encode, u32, max_frame_payload}
use anytls_go.Padding.{PaddingFactory}
use anytls_go.Session.State.{Session}
use anytls_go.Session.Write.{
  Env, psh_frame, write_data_chunk, next_chunk, write_chunks, write_data_frame,
}
use anytls_go.Session.Wire.{wire, wastes}
use anytls_go.Session.Frames.{encode_all}
use anytls_go.Session.Frames.Refine.{IsWellFormed}
use anytls_go.Session.Transfer.{IsBounded, Spells, nothing, chunk}
use anytls_go.Session.Transfer.Wrote.{
  Wrote, IsDirect, do_write_conn-Wrote, fillers, encode-fillers, fillers-Spells,
  fillers-IsWellFormed, take-drop_taken,
}

-- What writing p on a stream did: the wire holds a beginning of frames that spell data of the
-- stream, and all of them and all of p if there was no error.
pub record Streamed (sid : ℕ) (w p : Bytes) (total : ℕ) (x : Session × ℕ × Option Error)
    : Type 0 where
  pub frames : List Frame
  pub spelled : Bytes
  pub spells : Spells sid frames spelled
  pub well_formed : All IsWellFormed frames
  pub rest : Bytes
  pub grown : wire x.0.conn ++ rest ≡ w ++ encode_all frames
  pub complete : x.2 ≡ none → (rest ≡ []) × (spelled ≡ p) × (x.1 ≡ total)

module _ (sid : ℕ) (small : sid < u32) (w q : Bytes) (short : length q ≤ max_frame_payload)
    (pad : PaddingFactory) where
  psh-IsWellFormed : IsWellFormed (psh_frame sid q)
  psh-IsWellFormed = (record { known = tt; sid_fits = small; payload_fits = short }, tt)

  -- The frames of one chunk before those of the rest.
  chunk-encode :
      (ws : List ℕ) (fs : List Frame)
      → (encode (psh_frame sid q) ++ wastes ws) ++ encode_all fs
        ≡ encode_all (psh_frame sid q ∷ fillers ws fs)
  chunk-encode ws fs =
      append_assoc (encode (psh_frame sid q)) (wastes ws) (encode_all fs)
      ∙ ap (λ v. encode (psh_frame sid q) ++ v) (sym (encode-fillers ws fs))

  next-Streamed :
      (p left : Bytes) (written : ℕ) (x : Session × Result ℕ)
      (k : Session → Session × ℕ × Option Error)
      → q ++ left ≡ p
      → Wrote w (encode (psh_frame sid q)) pad x
      → ((s : Session)
          → IsDirect s
          → s.padding ≡ pad
          → Streamed sid (wire s.conn) left (written + length p) (k s))
      → Streamed sid w p (written + length p) (next_chunk x written k)
  next-Streamed p left written (s, ok n) k e h ih =
      let t = ih s (record { direct = h.unbuffered; empty = h.flushed }) h.same_padding in
      let whole : wire s.conn ≡ w ++ (encode (psh_frame sid q) ++ wastes h.ws) =
        sym (append-nil _)
        ∙ ap (λ r. wire s.conn ++ r) (sym (h.grows.complete tt))
        ∙ h.grows.grown in
      record {
        frames = psh_frame sid q ∷ fillers h.ws t.frames;
        spelled = q ++ t.spelled;
        spells = chunk q (fillers-Spells h.ws t.spells);
        well_formed =
            (psh-IsWellFormed, fillers-IsWellFormed h.ws t.frames h.bounded t.well_formed);
        rest = t.rest;
        grown =
            t.grown
            ∙ ap (λ v. v ++ encode_all t.frames) whole
            ∙ append_assoc w _ _
            ∙ ap (λ v. w ++ v) (chunk-encode h.ws t.frames);
        complete = λ z. let c = t.complete z in (c.0, ap (λ v. q ++ v) c.1 ∙ e, c.2);
      }
  next-Streamed p left written (s, err f) k e h ih = record {
    frames = psh_frame sid q ∷ fillers h.ws [];
    spelled = q ++ [];
    spells = chunk q (fillers-Spells h.ws nothing);
    well_formed = (psh-IsWellFormed, fillers-IsWellFormed h.ws [] h.bounded tt);
    rest = h.grows.rest;
    grown = h.grows.grown ∙ ap (λ v. w ++ v) (sym (append-nil _) ∙ chunk-encode h.ws []);
    complete = λ z. cc;
  }

write_data_chunk-Wrote :
    (env : Env) (sid : ℕ) (q : Bytes) (s : Session)
    → IsDirect s
    → IsBounded env s.padding
    → Wrote (wire s.conn) (encode (psh_frame sid q)) s.padding (write_data_chunk env sid q s)
unfolding write_data_chunk
write_data_chunk-Wrote env sid q s d b =
    do_write_conn-Wrote env (encode (psh_frame sid q)) false s d b

stop-Streamed :
    (sid : ℕ) (left : Bytes) (total count : ℕ) (s : Session)
    → length left ≡ 0
    → count ≡ total
    → Streamed sid (wire s.conn) left total (s, count, none)
stop-Streamed sid left total count s e t = record {
  frames = [];
  spelled = [];
  spells = nothing;
  well_formed = tt;
  rest = [];
  grown = refl;
  complete = λ z. (refl, sym (length-zero left e), t);
}

-- The loop of writeDataFrame, with any fuel above the length of the data.
chunks-Streamed :
    (env : Env) (sid fuel : ℕ) (p : Bytes) (written : ℕ) (s : Session)
    → sid < u32
    → length p < fuel
    → IsDirect s
    → IsBounded env s.padding
    → Streamed sid (wire s.conn) p (written + length p) (write_chunks env sid fuel p written s)
unfolding write_chunks
chunks-Streamed env sid zero p written s small h d b = absurd (omega arith)
chunks-Streamed env sid (suc fuel) p written s small h d b =
    let q = take max_frame_payload p in
    let left = drop (length q) p in
    let size : length q ≡ min max_frame_payload (length p) = length-take max_frame_payload p in
    let rest_size : length left ≡ length p - length q = length-drop (length q) p in
    next-Streamed sid small (wire s.conn) q (omega (arith, size)) s.padding p left written
      (write_data_chunk env sid q s) _ (take-drop_taken max_frame_payload p)
      (write_data_chunk-Wrote env sid q s d b)
      (λ s' d' same.
        if_elim (Streamed sid (wire s'.conn) left (written + length p)) (length left == 0) _ _
          (λ e.
            let empty : length left ≡ 0 = (==_iff (length left) 0).0 e in
            stop-Streamed sid left _ _ s' empty (omega (arith, size, rest_size, empty)))
          (λ e.
            let more : length left ≢ 0 = (λ z. false≢true (sym e ∙ (==_iff (length left) 0).1 z)) in
            subst
              (λ t.
                Streamed sid (wire s'.conn) left t
                  (write_chunks env sid fuel left (written + length q) s'))
              (omega (arith, size, rest_size))
              (chunks-Streamed env sid fuel left (written + length q) s' small
                (omega (arith, size, rest_size, more)) d' (subst (IsBounded env) (sym same) b))))

-- For a session that neither buffers nor holds buffered bytes, a stream id of 32 bits and a scheme
-- whose sizes are at most 65535, and whatever the network does: writing data of the stream leaves
-- on the wire a beginning of a sequence of well-formed frames that spell data of that stream with
-- padding in between; if the write returns no error, the whole sequence is there, it spells all of
-- the data, and the count that is returned is the data's length.
pub write_data_frame-Streamed :
    (env : Env) (sid : ℕ) (p : Bytes) (s : Session)
    → sid < u32
    → IsDirect s
    → IsBounded env s.padding
    → Streamed sid (wire s.conn) p (length p) (write_data_frame env sid p s)
unfolding write_data_frame
write_data_frame-Streamed env sid p s small d b =
    subst (λ t. Streamed sid (wire s.conn) p t (write_chunks env sid (suc (length p)) p 0 s))
      (omega arith) (chunks-Streamed env sid (suc (length p)) p 0 s small (omega arith) d b)
