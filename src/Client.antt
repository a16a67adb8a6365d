-- ===== src/Client.antt =====
-- proxy/session/client.go, and Session.Run of a client. The skip list of stl4go, the dialer and the
-- clock are parameters. A session is found by its seq; `store` holds every session made.
pub mod Idle
use anytls_go.Common.{
  ℕ, ◌+◌, ◌-◌, ◌^◌, ◌%◌, ◌||◌, Bytes, List, [], ◌∷◌, ◌++◌, map, Option, none, some, Bool, true,
  false, not, ltb, leb, ◌==◌, if◌then◌else◌, Error, io_error, closed_pipe, Result, ok, err, codes,
}
use anytls_go.Common.Maps.{lookup, insert, delete, adjust, nat_key}
use anytls_go.Frame.{Frame, settings}
use anytls_go.StringMap.{StringMap, to_bytes}
use anytls_go.Padding.{PaddingFactory}
use anytls_go.Session.Conn.{Conn}
use anytls_go.Session.State.{Session, Stream, new_session, close}
use anytls_go.Session.Write.{Env, write_control_frame}
use anytls_go.Session.Streams.{open_stream}

-- What the idle list keeps of a session: its seq and its idleSince, which only the list's users read.
pub record IdleEntry : Type 0 where
  pub seq : ℕ
  pub idle_since : ℕ

-- The skip list, by its entries in the order of its keys.
pub record SkipList {ℓ} (S : Type ℓ) : Type ℓ where
  pub empty : S
  pub insert_key : ℕ → IdleEntry → S → S
  pub remove_key : ℕ → S → S
  -- the assignment `session.idleSince = now` under a key
  pub touch : ℕ → ℕ → S → S
  pub entries : S → List (ℕ × IdleEntry)

-- Client
pub record Client {ℓ} (S : Type ℓ) : Type ℓ where
  pub store : List (ℕ × Session)
  pub sessions : List (ℕ × Unit {0})
  pub idle : S
  -- die is closed
  pub closed : Bool
  pub session_counter : ℕ
  pub idle_session_timeout : ℕ
  pub min_idle_session : ℕ
  pub disable_reuse : Bool

abbrev pub five_seconds : ℕ
five_seconds = 5000000000

abbrev pub thirty_seconds : ℕ
thirty_seconds = 30000000000

-- math.MaxUint64 - seq
abbrev pub idle_key : ℕ → ℕ
idle_key seq = 2 ^ 64 - 1 - seq

-- Session.Run of a client, up to its receive loop. ToBytes ranges over a Go map: `order` puts its
-- entries in the order of that run.
unfoldable pub settings_frame : (StringMap → StringMap) → Bytes → Session → Frame
unfolding to_bytes
settings_frame order program s = record {
  cmd = settings;
  sid = 0;
  payload = to_bytes (
      order (
        (codes "v", codes "2")
        ∷ (codes "client", program)
        ∷ (codes "padding-md5", s.padding.md5)
        ∷ []));
}

unfoldable pub run_client : Env → (StringMap → StringMap) → Bytes → Session → Session
unfolding write_control_frame settings_frame
run_client env order program s =
    (write_control_frame env (settings_frame order program s) (record s { buffering = true })).0

module _ {ℓ} {S : Type ℓ} (list : SkipList S) where
  -- NewClient
  unfoldable pub new_client : ℕ → ℕ → Bool → Client S
  new_client timeout min_idle disable_reuse = record {
    store = [];
    sessions = [];
    idle = list.empty;
    closed = false;
    session_counter = 0;
    idle_session_timeout = if leb timeout five_seconds then thirty_seconds else timeout;
    min_idle_session = min_idle;
    disable_reuse = disable_reuse;
  }

  -- getIdleSession
  abbrev pub first_idle : Client S → List (ℕ × IdleEntry) → Client S × Option ℕ
  first_idle c [] = (c, none)
  first_idle c ((key, e) ∷ es) = (record c { idle = list.remove_key key c.idle }, some e.seq)

  unfoldable pub get_idle_session : Client S → Client S × Option ℕ
  get_idle_session c = first_idle c (list.entries c.idle)

  -- The dieHook of a session
  unfoldable pub session_died : ℕ → Client S → Client S
  unfolding delete
  session_died seq c = record c {
    idle = if c.disable_reuse then c.idle else list.remove_key (idle_key seq) c.idle;
    sessions = delete seq c.sessions;
  }

  -- session.Close(): the hook runs if this call closes it.
  abbrev pub close_case : ℕ → Client S → Option Session → Client S
  close_case seq c none = c
  close_case seq c (some s) =
      if s.closed then c else session_died seq (record c { store = insert seq (close s).0 c.store })

  unfoldable pub close_session : ℕ → Client S → Client S
  unfolding lookup insert close session_died
  close_session seq c = close_case seq c (lookup seq c.store)

  unfoldable pub close_sessions : List ℕ → Client S → Client S
  unfolding close_session
  close_sessions [] c = c
  close_sessions (seq ∷ more) c = close_sessions more (close_session seq c)

  -- createSession: what the dialer gives, then a session that pads by the global factory.
  unfoldable pub create_session :
      Env
      → (StringMap → StringMap)
      → Bytes
      → PaddingFactory
      → Result Conn
      → Client S
      → Client S × Result ℕ
  unfolding new_session run_client insert
  create_session env order program padding (err e) c = (c, err e)
  create_session env order program padding (ok conn) c =
      let seq = (c.session_counter + 1) % 2 ^ 64 in
      let made : Session = record (new_session true conn padding) { hooked = true } in
      (
        record c {
          session_counter = seq;
          sessions = insert seq tt c.sessions;
          store = insert seq (run_client env order program made) c.store;
        },
        ok seq,
      )

  -- CreateStream, from a session on: the stream, with its dieHook set, or the session closed.
  abbrev pub hook_stream : ℕ → Session → Session
  hook_stream sid s = record s {
    streams = adjust sid (λ (st : Stream). record st { hooked = true }) s.streams;
  }

  abbrev pub opened : ℕ → Client S → Session × Result ℕ → Client S × Result (ℕ × ℕ)
  opened seq c (s, ok sid) =
      (record c { store = insert seq (hook_stream sid s) c.store }, ok (seq, sid))
  opened seq c (s, err e) = (close_session seq (record c { store = insert seq s c.store }), err e)

  abbrev pub open_on : Env → ℕ → Client S → Option Session → Client S × Result (ℕ × ℕ)
  open_on env seq c none = (c, err io_error)
  open_on env seq c (some s) = opened seq c (open_stream env s)

  abbrev pub with_session : Env → Client S × Result ℕ → Client S × Result (ℕ × ℕ)
  with_session env (c, err e) = (c, err e)
  with_session env (c, ok seq) = open_on env seq c (lookup seq c.store)

  abbrev pub idle_or_new :
      Env
      → (StringMap → StringMap)
      → Bytes
      → PaddingFactory
      → Result Conn
      → Client S × Option ℕ
      → Client S × Result (ℕ × ℕ)
  idle_or_new env order program padding dialed (c, some seq) = with_session env (c, ok seq)
  idle_or_new env order program padding dialed (c, none) =
      with_session env (create_session env order program padding dialed c)

  -- CreateStream: the seq of the session and the id of the stream. The dialer is asked only when
  -- there is no idle session.
  unfoldable pub create_stream :
      Env
      → (StringMap → StringMap)
      → Bytes
      → PaddingFactory
      → Result Conn
      → Client S
      → Client S × Result (ℕ × ℕ)
  unfolding get_idle_session create_session close_session open_stream adjust insert lookup
  create_stream env order program padding dialed c =
      if c.closed
      then (c, err closed_pipe)
      else idle_or_new env order program padding dialed
          (if c.disable_reuse then (c, none) else get_idle_session c)

  -- The dieHook of a stream: its session goes to the idle list.
  abbrev pub put_back : ℕ → ℕ → Client S → Option Session → Client S
  put_back now seq c none = c
  put_back now seq c (some s) =
      if s.closed
      then c
      else if c.disable_reuse || c.closed
      then close_session seq c
      else record c {
        idle = list.insert_key (idle_key seq) (record { seq = seq; idle_since = now }) c.idle;
      }

  unfoldable pub stream_died : ℕ → ℕ → Client S → Client S
  unfolding lookup close_session
  stream_died now seq c = put_back now seq c (lookup seq c.store)

  -- Client.Close
  unfoldable pub close_client : Client S → Client S
  unfolding close_sessions
  close_client c =
      close_sessions (map (λ x. x.0) c.sessions) (record c { closed = true; sessions = [] })

  -- The loop of idleCleanupExpTime over the entries: the list it leaves, and the sessions to close.
  unfoldable pub sweep : ℕ → ℕ → ℕ → ℕ → List (ℕ × IdleEntry) → S → S × List ℕ
  sweep now exp_time min_idle active [] s = (s, [])
  sweep now exp_time min_idle active ((key, e) ∷ es) s =
      let fresh = sweep now exp_time min_idle (active + 1) es s in
      let kept = sweep now exp_time min_idle (active + 1) es (list.touch key now s) in
      let out = sweep now exp_time min_idle active es (list.remove_key key s) in
      if not (ltb e.idle_since exp_time)
      then fresh
      else if ltb active min_idle
      then kept
      else (out.0, e.seq ∷ out.1)

  unfoldable pub idle_cleanup_exp_time : ℕ → ℕ → Client S → Client S
  unfolding sweep close_sessions
  idle_cleanup_exp_time now exp_time c =
      let swept = sweep now exp_time c.min_idle_session 0 (list.entries c.idle) c.idle in
      close_sessions swept.1 (record c { idle = swept.0 })

  unfoldable pub idle_cleanup : ℕ → Client S → Client S
  unfolding idle_cleanup_exp_time
  idle_cleanup now c = idle_cleanup_exp_time now (now - c.idle_session_timeout) c
