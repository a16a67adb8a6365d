-- ===== src/Session/Reliable.antt =====
-- On a connection that takes every write, no write of the session fails.
use anytls_go.Common.{
  ℕ, zero, suc, ◌+◌, ◌%◌, ◌≡◌, refl, sym, ◌∙◌, Bytes, List, [], ◌∷◌, Option, none, some, Bool, true,
  false, length, take, drop, ltb, ◌==◌, if_elim, Error, Result, ok, err, M, chain,
}
use mathlib.Core.Bool.{false≢true}
use anytls_go.Frame.{u32, max_frame_payload}
use anytls_go.Padding.{Size, check_mark, size}
use anytls_go.Session.Conn.{Conn, put, raw_write, wait_write, wait_then, write, write_fn}
use anytls_go.Session.State.{Session}
use anytls_go.Session.Write.{
  Env, waste_frame, fill, pad_loop, write_rest, send_padded, with_conn, send, do_write_conn,
  write_data_chunk, next_chunk, write_chunks, write_data_frame,
}
use anytls_go.Session.Wire.{IsOk}

-- An open connection whose network takes every write and whose limiter grants every wait.
pub record IsReliable (c : Conn) : Type 0 where
  pub live : c.closed ≡ false
  pub accepts : (k : ℕ) → c.fate k ≡ none
  pub grants : (k : ℕ) → c.grants k ≡ true

pub record Goes {ℓ} {A : Type ℓ} (x : Conn × Result A) : Type 0 where
  pub fine : IsOk x.1
  pub still : IsReliable x.0

put-Goes : (o : Option ℕ) (p : Bytes) (c : Conn) → o ≡ none → IsReliable c → Goes (put o p c)
put-Goes none p c e h = record {
  fine = tt;
  still = record { live = h.live; accepts = h.accepts; grants = h.grants };
}
put-Goes (some m) p c e h = cc

raw_write-Goes : (p : Bytes) (c : Conn) → IsReliable c → Goes (raw_write p c)
unfolding raw_write
raw_write-Goes p c h =
    if_elim (Goes {A = ℕ}) c.closed _ _ (λ e. absurd (false≢true (sym h.live ∙ e)))
      (λ e. put-Goes (c.fate c.writes) p c (h.accepts c.writes) h)

wait_write-Goes : (n : ℕ) (c : Conn) → IsReliable c → Goes (wait_write n c)
unfolding wait_write
wait_write-Goes n c h =
    if_elim (Goes {A = Unit {0}}) (c.grants c.waits) _ _
      (λ e. record {
        fine = tt;
        still = record { live = h.live; accepts = h.accepts; grants = h.grants };
      })
      (λ e. absurd (false≢true (sym e ∙ h.grants c.waits)))

wait_then-Goes : (p : Bytes) (x : Conn × Result (Unit {0})) → Goes x → Goes (wait_then p x)
wait_then-Goes p (c, ok u) h = raw_write-Goes p c h.still
wait_then-Goes p (c, err e) h = absurd h.fine

write-Goes : (p : Bytes) (c : Conn) → IsReliable c → Goes (write p c)
unfolding write
write-Goes p c h =
    if_elim (Goes {A = ℕ}) c.limited _ _ (λ e. wait_then-Goes p _ (wait_write-Goes (length p) c h))
      (λ e. raw_write-Goes p c h)

write_fn-Goes : (u : Bool) (p : Bytes) (c : Conn) → IsReliable c → Goes (write_fn u p c)
unfolding write_fn
write_fn-Goes u p c h =
    if_elim (Goes {A = ℕ}) u _ _
      (λ e.
        if_elim (Goes {A = ℕ}) c.limited _ _ (λ f. raw_write-Goes p c h) (λ f. write-Goes p c h))
      (λ e. write-Goes p c h)

chain-Goes {ℓ κ} :
    {A : Type ℓ} {B : Type κ} (x : Conn × Result A) (k : A → M Conn B)
    → Goes x
    → ((a : A) (c : Conn) → IsReliable c → Goes (k a c))
    → Goes (chain x k)
chain-Goes (c, ok a) k h next = next a c h.still
chain-Goes (c, err e) k h next = absurd h.fine

pad_loop-Goes :
    (u : Bool) (ls : List Size) (b : Bytes) (n : ℕ) (c : Conn)
    → IsReliable c
    → Goes (pad_loop u ls b n c)
unfolding pad_loop
pad_loop-Goes u [] b n c h = record { fine = tt; still = h }
pad_loop-Goes u (check_mark ∷ ls) b n c h =
    if_elim (Goes {A = Bytes × ℕ}) (length b == 0) _ _ (λ e. record { fine = tt; still = h })
      (λ e. pad_loop-Goes u ls b n c h)
pad_loop-Goes u (size l ∷ ls) b n c h =
    if_elim (Goes {A = Bytes × ℕ}) (ltb l (length b)) _ _
      (λ e.
        chain-Goes _ _ (write_fn-Goes u (take l b) c h)
          (λ a. pad_loop-Goes u ls (drop l b) (n + l)))
      (λ e.
        if_elim (Goes {A = Bytes × ℕ}) (ltb 0 (length b)) _ _
          (λ f.
            chain-Goes _ _ (write_fn-Goes u (fill l b) c h)
              (λ a. pad_loop-Goes u ls [] (n + length b)))
          (λ f.
            chain-Goes _ _ (write_fn-Goes u (waste_frame l) c h) (λ a. pad_loop-Goes u ls [] n)))

write_rest-Goes : (u : Bool) (a : Bytes × ℕ) (c : Conn) → IsReliable c → Goes (write_rest u a c)
write_rest-Goes u (b, n) c h =
    if_elim (Goes {A = ℕ}) (length b == 0) _ _ (λ e. record { fine = tt; still = h })
      (λ e. chain-Goes _ _ (write_fn-Goes u b c h) (λ m c' h'. record { fine = tt; still = h' }))

send_padded-Goes :
    (u : Bool) (ls : List Size) (b : Bytes) (c : Conn) → IsReliable c → Goes (send_padded u ls b c)
unfolding send_padded
send_padded-Goes u ls b c h = chain-Goes _ _ (pad_loop-Goes u ls b 0 c h) (write_rest-Goes u)

abbrev SessionGoes : Session × Result ℕ → Type 0
SessionGoes x = Goes {A = ℕ} (x.0.conn, x.1)

with_conn-Goes : (s : Session) (x : Conn × Result ℕ) → Goes x → SessionGoes (with_conn s x)
with_conn-Goes s (c, r) h = h

send-Goes :
    (env : Env) (b : Bytes) (u : Bool) (s : Session)
    → IsReliable s.conn
    → SessionGoes (send env b u s)
unfolding send
send-Goes env b u s h =
    let pkt = (s.pkt_counter + 1) % u32 in
    if_elim SessionGoes s.send_padding _ _
      (λ e.
        if_elim SessionGoes (ltb pkt s.padding.stop) _ _
          (λ f. with_conn-Goes (record s { pkt_counter = pkt }) _ (send_padded-Goes u _ b s.conn h))
          (λ f.
            with_conn-Goes (record s { pkt_counter = pkt; send_padding = false }) _
              (write_fn-Goes u b s.conn h)))
      (λ e. with_conn-Goes s _ (write_fn-Goes u b s.conn h))

write_data_chunk-Goes :
    (env : Env) (sid : ℕ) (q : Bytes) (s : Session)
    → IsReliable s.conn
    → SessionGoes (write_data_chunk env sid q s)
unfolding write_data_chunk do_write_conn
write_data_chunk-Goes env sid q s h =
    if_elim SessionGoes s.buffering _ _ (λ e. record { fine = tt; still = h })
      (λ e. send-Goes env _ false (record s { buffer = [] }) h)

next_chunk-none :
    (x : Session × Result ℕ) (written : ℕ) (k : Session → Session × ℕ × Option Error)
    → SessionGoes x
    → ((s : Session) → IsReliable s.conn → (k s).2 ≡ none)
    → (next_chunk x written k).2 ≡ none
next_chunk-none (s, ok n) written k h next = next s h.still
next_chunk-none (s, err e) written k h next = absurd h.fine

chunks-none :
    (env : Env) (sid fuel : ℕ) (p : Bytes) (written : ℕ) (s : Session)
    → IsReliable s.conn
    → (write_chunks env sid fuel p written s).2 ≡ none
unfolding write_chunks
chunks-none env sid zero p written s h = refl
chunks-none env sid (suc fuel) p written s h =
    let q = take max_frame_payload p in
    let left = drop (length q) p in
    next_chunk-none (write_data_chunk env sid q s) written _ (write_data_chunk-Goes env sid q s h)
      (λ s' h'.
        if_elim {A = Session × ℕ × Option Error} (λ x. x.2 ≡ none) (length left == 0)
          (s', written + length q, none) (write_chunks env sid fuel left (written + length q) s')
          (λ e. refl) (λ e. chunks-none env sid fuel left (written + length q) s' h'))

pub write_data_frame-none :
    (env : Env) (sid : ℕ) (p : Bytes) (s : Session)
    → IsReliable s.conn
    → (write_data_frame env sid p s).2 ≡ none
unfolding write_data_frame
write_data_frame-none env sid p s h = chunks-none env sid (suc (length p)) p 0 s h
