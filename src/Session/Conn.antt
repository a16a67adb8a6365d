-- ===== src/Session/Conn.antt =====
-- The connection under a session, a net.Conn or limiter.limitedConn: what the session sees of it.
-- What the network will do is a parameter: `fate k` is none if the k-th Write takes all its bytes,
-- and some m if it fails after m bytes; `waits k` says whether the k-th wait for tokens succeeds.
use anytls_go.Common.{
  ℕ, suc, ◌+◌, Bytes, List, [], ◌∷◌, ◌++◌, Option, none, some, Bool, true, length, take, net_closed,
  io_error, Result, ok, err, M, if◌then◌else◌,
}

pub record Conn : Type 0 where
  -- the chunks that Write was called with and accepted, oldest first
  pub sent : List Bytes
  pub fate : ℕ → Option ℕ
  pub writes : ℕ
  pub closed : Bool
  -- limited: the connection implements WaitWrite and WriteUnlimited
  pub limited : Bool
  pub grants : ℕ → Bool
  pub waits : ℕ
  -- bytes for which tokens were taken
  pub charged : ℕ
  -- a write deadline is set
  pub deadline : Bool

-- net.Conn.Write of the connection itself; after Close it fails.
abbrev pub put : Option ℕ → Bytes → M Conn ℕ
put none p c = (record c { sent = c.sent ++ p ∷ []; writes = suc c.writes }, ok (length p))
put (some m) p c =
    (record c { sent = c.sent ++ take m p ∷ []; writes = suc c.writes }, err io_error)

unfoldable pub raw_write : Bytes → M Conn ℕ
raw_write p c = if c.closed then (c, err net_closed) else put (c.fate c.writes) p c

-- WaitWrite
unfoldable pub wait_write : ℕ → M Conn (Unit {0})
wait_write n c =
    if c.grants c.waits
    then (record c { waits = suc c.waits; charged = c.charged + n }, ok tt)
    else (record c { waits = suc c.waits }, err io_error)

-- Write: a limited connection waits for the bytes' tokens first.
abbrev pub wait_then : Bytes → Conn × Result (Unit {0}) → Conn × Result ℕ
wait_then p (c, ok u) = raw_write p c
wait_then p (c, err e) = (c, err e)

unfoldable pub write : Bytes → M Conn ℕ
unfolding raw_write wait_write
write p c = if c.limited then wait_then p (wait_write (length p) c) else raw_write p c

-- writeFn of doWriteConn: WriteUnlimited where the tokens have been taken and the connection has it.
unfoldable pub write_fn : Bool → Bytes → M Conn ℕ
unfolding write raw_write
write_fn bypass p c = if bypass then (if c.limited then raw_write p c else write p c) else write p c

unfoldable pub set_write_deadline : Bool → Conn → Conn
set_write_deadline on c = record c { deadline = on }

-- SetDeadline(now), and Close
unfoldable pub close : Conn → Conn
close c = record c { closed = true; deadline = true }
