-- ===== src/Session/Write.antt =====
-- The write path of proxy/session/session.go: doWriteConn with its padding, writeControlFrame,
-- writeDataChunk and writeDataFrame. connLock makes each doWriteConn one step. The byte counts that
-- come with an error are left out where every caller drops them.
use anytls_go.Common.{
  ℕ, zero, suc, ◌+◌, ◌-◌, ◌%◌, Bytes, List, [], ◌∷◌, ◌++◌, Option, none, some, Bool, true, false,
  length, take, drop, replicate, ltb, ◌==◌, if◌then◌else◌, Error, Result, ok, err, M, chain,
}
use anytls_go.Frame.{
  Frame, waste, psh, to_byte, encode, put_u32, put_u16, u16, u32, max_frame_payload,
}
use anytls_go.Padding.{Size, check_mark, size, generate_sizes}
use anytls_go.Session.Conn
use anytls_go.Session.Conn.{Conn, write_fn, wait_write}
use anytls_go.Session.State.{Session, close}

-- What the session takes from outside: the hash of padding.go, the random draws for each packet,
-- and CLIENT_DEBUG_PADDING_SCHEME.
pub record Env : Type 0 where
  pub md5 : Bytes → Bytes
  pub draw : ℕ → ℕ → ℕ → ℕ
  pub debug_padding : Bool

-- The padding frame of l zero bytes; its length field is uint16(l).
unfoldable pub waste_frame : ℕ → Bytes
unfolding to_byte
waste_frame l = to_byte waste ∷ (put_u32 0 ++ (put_u16 (l % u16) ++ replicate l 0))

-- The last part of the payload, with a padding frame behind it if there is room for its header.
unfoldable pub fill : ℕ → Bytes → Bytes
unfolding waste_frame
fill l b = if ltb 0 (l - length b - 7) then b ++ waste_frame (l - length b - 7) else b

-- The loop over pktSizes: the payload that is left and the payload bytes written.
unfoldable pub pad_loop : Bool → List Size → Bytes → ℕ → M Conn (Bytes × ℕ)
unfolding write_fn fill waste_frame
pad_loop u [] b n c = (c, ok (b, n))
pad_loop u (check_mark ∷ ls) b n c =
    let rest = pad_loop u ls b n c in if length b == 0 then (c, ok (b, n)) else rest
pad_loop u (size l ∷ ls) b n c =
    let cut = chain (write_fn u (take l b) c) (λ _. pad_loop u ls (drop l b) (n + l)) in
    let last = chain (write_fn u (fill l b) c) (λ _. pad_loop u ls [] (n + length b)) in
    let all = chain (write_fn u (waste_frame l) c) (λ _. pad_loop u ls [] n) in
    if ltb l (length b) then cut else if ltb 0 (length b) then last else all

-- The payload that the sizes left over goes out as one write.
abbrev pub write_rest : Bool → Bytes × ℕ → M Conn ℕ
write_rest u (b, n) c =
    if length b == 0 then (c, ok n) else chain (write_fn u b c) (λ m c'. (c', ok (n + m)))

unfoldable pub send_padded : Bool → List Size → Bytes → M Conn ℕ
unfolding pad_loop
send_padded u sizes b c = chain (pad_loop u sizes b 0 c) (write_rest u)

abbrev pub with_conn {ℓ} : {A : Type ℓ} → Session → Conn × Result A → Session × Result A
with_conn s (c, r) = (record s { conn = c }, r)

-- A session that pads counts its packets, up to the scheme's stop.
unfoldable pub send : Env → Bytes → Bool → M Session ℕ
unfolding send_padded
send env b u s =
    let pkt = (s.pkt_counter + 1) % u32 in
    if s.send_padding
    then (if ltb pkt s.padding.stop
        then with_conn (record s { pkt_counter = pkt })
            (send_padded u (generate_sizes (env.draw pkt) s.padding pkt) b s.conn)
        else with_conn (record s { pkt_counter = pkt; send_padding = false }) (write_fn u b s.conn))
    else with_conn s (write_fn u b s.conn)

-- The deadline of control frames is set around the write.
abbrev pub arm : Bool → Session → Session
arm true s = record s { conn = Conn.set_write_deadline true s.conn }
arm false s = s

abbrev pub disarm {ℓ} : {A : Type ℓ} → Bool → Session × Result A → Session × Result A
disarm true (s, r) = (record s { conn = Conn.set_write_deadline false s.conn }, r)
disarm false (s, r) = (s, r)

unfoldable pub do_write_conn : Env → Bytes → Bool → Bool → M Session ℕ
unfolding send Conn.set_write_deadline
do_write_conn env b control u s =
    if s.buffering
    then (record s { buffer = s.buffer ++ b }, ok (length b))
    else disarm control (send env (s.buffer ++ b) u (arm control (record s { buffer = [] })))

-- An error closes the session.
abbrev pub or_close {ℓ} : {A : Type ℓ} → ℕ → Session × Result A → Session × Result ℕ
or_close n (s, ok a) = (s, ok n)
or_close n (s, err e) = ((close s).0, err e)

abbrev pub granted : Env → Frame → Session × Result (Unit {0}) → Session × Result ℕ
granted env f (s, ok u) = or_close (length f.payload) (do_write_conn env (encode f) true true s)
granted env f (s, err e) = ((close s).0, err e)

unfoldable pub write_control_frame : Env → Frame → M Session ℕ
unfolding do_write_conn encode close wait_write
write_control_frame env f s =
    if s.conn.limited
    then granted env f (with_conn s (wait_write (length (encode f)) s.conn))
    else or_close (length f.payload) (do_write_conn env (encode f) true false s)

abbrev pub psh_frame : ℕ → Bytes → Frame
psh_frame sid p = record { cmd = psh; sid = sid; payload = p }

unfoldable pub write_data_chunk : Env → ℕ → Bytes → M Session ℕ
unfolding do_write_conn encode
write_data_chunk env sid p s = do_write_conn env (encode (psh_frame sid p)) false false s

-- The loop of writeDataFrame; one round for each chunk, so a fuel above the length of the data is
-- never used up. The bytes written come with an error too.
abbrev pub next_chunk :
    Session × Result ℕ → ℕ → (Session → Session × ℕ × Option Error) → Session × ℕ × Option Error
next_chunk (s, ok m) written k = k s
next_chunk (s, err e) written k = (s, written, some e)

unfoldable pub write_chunks : Env → ℕ → ℕ → Bytes → ℕ → Session → Session × ℕ × Option Error
unfolding write_data_chunk
write_chunks env sid zero p written s = (s, written, none)
write_chunks env sid (suc fuel) p written s =
    let chunk = take max_frame_payload p in
    let left = drop (length chunk) p in
    next_chunk (write_data_chunk env sid chunk s) written λ s'.
      let more = write_chunks env sid fuel left (written + length chunk) s' in
      if length left == 0 then (s', written + length chunk, none) else more

unfoldable pub write_data_frame : Env → ℕ → Bytes → Session → Session × ℕ × Option Error
unfolding write_chunks
write_data_frame env sid p s = write_chunks env sid (suc (length p)) p 0 s
