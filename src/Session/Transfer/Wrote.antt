-- ===== src/Session/Transfer/Wrote.antt =====
-- One write of a session: its payload, then padding, as frames.
use anytls_go.Common.{
  ℕ, zero, suc, ◌+◌, ◌%◌, ◌≤◌, ◌≡◌, refl, sym, ap, ◌∙◌, subst, Bytes, List, [], ◌∷◌, ◌++◌,
  append_assoc, append-nil, Bool, false, All, length, take, drop, length-replicate, if_elim, ltb,
  arith, replicate, Result,
}
use mathlib.Core.Bool.{false≢true}
use mathlib.Core.Path.{ap₂}
use anytls_go.Frame.{Frame, encode, u16, u32, put_u16, max_frame_payload, to_byte}
use anytls_go.Padding.{PaddingFactory}
use anytls_go.Session.Conn.{Conn}
use anytls_go.Session.State.{Session}
use anytls_go.Session.Write.{Env, waste_frame, with_conn, send, disarm, do_write_conn}
use anytls_go.Session.Wire.{wire, wastes, Grows, write_fn-Grows}
use anytls_go.Session.Padded.{Sends, send_padded-Sends}
use anytls_go.Session.Frames.{encode_all}
use anytls_go.Session.Frames.Refine.{IsWellFormed}
use anytls_go.Session.Transfer.{IsBounded, waste_of, Spells, filler}

-- The session's part in a write of p: padding behind p, and what the next write relies on.
pub record Wrote (w p : Bytes) (pad : PaddingFactory) (x : Session × Result ℕ) : Type 0 where
  pub ws : List ℕ
  pub bounded : All (λ l. l ≤ max_frame_payload) ws
  pub grows : Grows w (p ++ wastes ws) (x.0.conn, x.1)
  pub same_padding : x.0.padding ≡ pad
  pub unbuffered : x.0.buffering ≡ false
  pub flushed : x.0.buffer ≡ []

-- A session that holds nothing back.
pub record IsDirect (s : Session) : Type 0 where
  pub direct : s.buffering ≡ false
  pub empty : s.buffer ≡ []

with_conn-Wrote :
    (w p : Bytes) (s : Session) (x : Conn × Result ℕ)
    → Sends max_frame_payload w p x
    → IsDirect s
    → Wrote w p s.padding (with_conn s x)
with_conn-Wrote w p s (c, r) h d = record {
  ws = h.ws;
  bounded = h.bounded;
  grows = h.grows;
  same_padding = refl;
  unbuffered = d.direct;
  flushed = d.empty;
}

plain-Wrote :
    (w p : Bytes) (s : Session) (x : Conn × Result ℕ)
    → Grows w p x
    → IsDirect s
    → Wrote w p s.padding (with_conn s x)
plain-Wrote w p s (c, r) h d = record {
  ws = [];
  bounded = tt;
  grows = subst (λ v. Grows w v (c, r)) (sym (append-nil p)) h;
  same_padding = refl;
  unbuffered = d.direct;
  flushed = d.empty;
}

send-Wrote :
    (env : Env) (p : Bytes) (u : Bool) (s : Session)
    → IsDirect s
    → IsBounded env s.padding
    → Wrote (wire s.conn) p s.padding (send env p u s)
unfolding send
send-Wrote env p u s d b =
    let P = Wrote (wire s.conn) p s.padding in
    let pkt = (s.pkt_counter + 1) % u32 in
    let plain = write_fn-Grows u p s.conn in
    if_elim P s.send_padding _ _
      (λ e.
        if_elim P (ltb pkt s.padding.stop) _ _
          (λ f.
            with_conn-Wrote (wire s.conn) p (record s { pkt_counter = pkt }) _
              (send_padded-Sends max_frame_payload u _ p s.conn (b pkt))
              (record { direct = d.direct; empty = d.empty }))
          (λ f.
            plain-Wrote (wire s.conn) p (record s { pkt_counter = pkt; send_padding = false }) _
              plain (record { direct = d.direct; empty = d.empty })))
      (λ e. plain-Wrote (wire s.conn) p s _ plain d)

pub do_write_conn-Wrote :
    (env : Env) (p : Bytes) (u : Bool) (s : Session)
    → IsDirect s
    → IsBounded env s.padding
    → Wrote (wire s.conn) p s.padding (do_write_conn env p false u s)
unfolding do_write_conn
do_write_conn-Wrote env p u s d b =
    if_elim (Wrote (wire s.conn) p s.padding) s.buffering _ _
      (λ e. absurd (false≢true (sym d.direct ∙ e)))
      (λ e.
        subst
          (λ v.
            Wrote (wire s.conn) v s.padding
              (disarm false (send env (s.buffer ++ p) u (record s { buffer = [] }))))
          (ap (λ v. v ++ p) d.empty)
          (send-Wrote env (s.buffer ++ p) u (record s { buffer = [] })
            (record { direct = d.direct; empty = refl }) b))

pub waste_frame-encode : (l : ℕ) → waste_frame l ≡ encode (waste_of l)
unfolding waste_frame encode to_byte
waste_frame-encode l =
    ap (λ n. 0 ∷ 0 ∷ 0 ∷ 0 ∷ 0 ∷ (put_u16 (n % u16) ++ replicate l 0)) (sym (length-replicate l 0))

abbrev pub fillers : List ℕ → List Frame → List Frame
fillers [] fs = fs
fillers (l ∷ ws) fs = waste_of l ∷ fillers ws fs

pub encode-fillers :
    (ws : List ℕ) (fs : List Frame) → encode_all (fillers ws fs) ≡ wastes ws ++ encode_all fs
encode-fillers [] fs = refl
encode-fillers (l ∷ ws) fs =
    ap₂ ◌++◌ (sym (waste_frame-encode l)) (encode-fillers ws fs)
    ∙ sym (append_assoc (waste_frame l) (wastes ws) (encode_all fs))

pub fillers-Spells :
    {sid : ℕ} (ws : List ℕ) {fs : List Frame} {p : Bytes}
    → Spells sid fs p
    → Spells sid (fillers ws fs) p
fillers-Spells [] h = h
fillers-Spells (l ∷ ws) h = filler l (fillers-Spells ws h)

pub fillers-IsWellFormed :
    (ws : List ℕ) (fs : List Frame)
    → All (λ l. l ≤ max_frame_payload) ws
    → All IsWellFormed fs
    → All IsWellFormed (fillers ws fs)
fillers-IsWellFormed [] fs h a = a
fillers-IsWellFormed (l ∷ ws) fs h a = (
  (
    record {
      known = tt;
      sid_fits = omega arith;
      payload_fits = omega (arith, length-replicate {A = ℕ} l 0, h.0);
    },
    tt,
  ),
  fillers-IsWellFormed ws fs h.1 a,
)

pub take-drop_taken : (n : ℕ) (p : Bytes) → take n p ++ drop (length (take n p)) p ≡ p
take-drop_taken zero p = refl
take-drop_taken (suc n) [] = refl
take-drop_taken (suc n) (b ∷ p) = ap (◌∷◌ b) (take-drop_taken n p)
