-- ===== src/Stats.antt =====
-- stats/registry.go and stats/stream.go: traffic and sessions by user, connections by device,
-- streams. The pointer to a UserStat is its id with the number of its allocation, and that to a
-- StreamStats is a number; a UserStat that Clear removed from the registry is no longer found by its
-- pointer, since nothing reads its counters. Times are nanoseconds. An int64 is kept as its
-- 64 bits.
pub mod Account
pub mod Held
pub mod Traffic
pub mod Ids
use anytls_go.Common.{
  ℕ, ◌+◌, ◌-◌, ◌^◌, ◌%◌, Bytes, List, [], ◌∷◌, ◌++◌, map, Option, none, some, Bool, true, false,
  not, ◌&&◌, ◌||◌, length, concat, ltb, leb, ◌==◌, ◌=b◌, if◌then◌else◌, codes,
}
use anytls_go.Common.Maps.{lookup, insert, delete, adjust, nat_key, bytes_key}
use anytls_go.Frame.{u32}
use anytls_go.Devices.{DeviceKey, device_key, Entry, acquire, release, key_of, host_only}

-- sessionInfo
pub record SessionInfo : Type 0 where
  pub remote : Bytes
  pub started : ℕ

pub record UserStat : Type 0 where
  -- the number of its allocation
  pub number : ℕ
  pub tx : ℕ
  pub rx : ℕ
  pub sessions : List (ℕ × SessionInfo)

-- Conn
pub record Conn : Type 0 where
  pub id : ℕ
  pub stream_seq : ℕ

pub data StreamState : Type 0 where
  initial hooking connecting established closed : StreamState

pub record StreamStats : Type 0 where
  pub auth_id : Bytes
  pub conn_id : ℕ
  pub stream_id : ℕ
  pub initial_time : ℕ
  pub state : StreamState
  pub req_addr : Option Bytes
  pub tx : ℕ
  pub rx : ℕ
  pub last_active : ℕ

pub record Registry : Type 0 where
  pub users : List (Bytes × UserStat)
  -- the number of the next UserStat
  pub allocated : ℕ
  pub streams : List (ℕ × StreamStats)
  pub devices : List (DeviceKey × Entry Conn)

unfoldable pub new_registry : Registry
new_registry = record { users = []; allocated = 0; streams = []; devices = [] }

abbrev pub u64 : ℕ
u64 = 2 ^ 64

-- UserStat.AddTx and AddRx
unfoldable pub add_tx : ℕ → UserStat → UserStat
add_tx n u = record u { tx = (u.tx + n) % u64 }

unfoldable pub add_rx : ℕ → UserStat → UserStat
add_rx n u = record u { rx = (u.rx + n) % u64 }

-- Conn.NextStreamID
unfoldable pub next_stream_id : Conn → Conn × ℕ
next_stream_id c = let n = (c.stream_seq + 1) % u32 in (record c { stream_seq = n }, n)

-- freshConnID: the first of the random numbers that no device has.
unfoldable pub in_use : ℕ → List (DeviceKey × Entry Conn) → Bool
in_use n [] = false
in_use n ((k, e) ∷ m) = e.shared.id == n || in_use n m

unfoldable pub fresh_conn_id : List ℕ → List (DeviceKey × Entry Conn) → Option ℕ
unfolding in_use
fresh_conn_id [] m = none
fresh_conn_id (n ∷ ns) m = let later = fresh_conn_id ns m in if in_use n m then later else some n

-- AcquireConn, with the random numbers that it may draw; none if all of them are in use.
abbrev pub acquire_known :
    DeviceKey → Option (Entry Conn) → Option ℕ → Registry → Option (Registry × Entry Conn)
acquire_known k (some e) n r =
    let got = acquire e.shared k r.devices in some (record r { devices = got.0 }, got.1)
acquire_known k none none r = none
acquire_known k none (some n) r =
    let got = acquire (record { id = n; stream_seq = 0 }) k r.devices in
    some (record r { devices = got.0 }, got.1)

unfoldable pub acquire_conn : List ℕ → Bytes → Bytes → Registry → Option (Registry × Entry Conn)
unfolding acquire fresh_conn_id key_of lookup
acquire_conn draws auth_id remote_addr r =
    let k = key_of auth_id remote_addr in
    acquire_known k (lookup k r.devices) (fresh_conn_id draws r.devices) r

-- ReleaseConn
unfoldable pub release_conn : DeviceKey → Registry → Registry
unfolding release
release_conn k r = record r { devices = release k r.devices }

-- TraceStream, under the number of the record, and UntraceStream
unfoldable pub trace_stream : ℕ → ℕ → Bytes → ℕ → ℕ → Registry → Registry
unfolding insert
trace_stream now ref auth_id conn_id stream_id r = record r {
  streams =
      insert ref
        (record {
          auth_id = auth_id;
          conn_id = conn_id;
          stream_id = stream_id;
          initial_time = now;
          state = connecting;
          req_addr = none;
          tx = 0;
          rx = 0;
          last_active = now;
        })
        r.streams;
}

unfoldable pub untrace_stream : ℕ → Registry → Registry
unfolding delete
untrace_stream ref r = record r { streams = delete ref r.streams }

-- The methods of StreamStats
unfoldable pub stream_add_tx : ℕ → ℕ → StreamStats → StreamStats
stream_add_tx now n s = record s { tx = (s.tx + n) % u64; last_active = now }

unfoldable pub stream_add_rx : ℕ → ℕ → StreamStats → StreamStats
stream_add_rx now n s = record s { rx = (s.rx + n) % u64; last_active = now }

unfoldable pub set_state : StreamState → StreamStats → StreamStats
set_state st s = record s { state = st }

unfoldable pub set_req_addr : Bytes → StreamStats → StreamStats
set_req_addr addr s = record s { req_addr = some addr }

-- A pointer to a UserStat: its ID, and the number of its allocation
pub record UserRef : Type 0 where
  pub id : Bytes
  pub number : ℕ

-- Attach and Detach, by the number of the session. Attach gives the pointer that the session holds.
abbrev pub user_or_new : ℕ → Option UserStat → UserStat
user_or_new n none = record { number = n; tx = 0; rx = 0; sessions = [] }
user_or_new n (some u) = u

abbrev pub allocated_by : Option UserStat → ℕ → ℕ
allocated_by none n = n + 1
allocated_by (some u) n = n

abbrev pub joined : ℕ → Bytes → ℕ → UserStat → UserStat
joined now remote sess u = record u {
  sessions = insert sess (record { remote = remote; started = now }) u.sessions;
}

unfoldable pub attach : ℕ → Bytes → Bytes → ℕ → Registry → Registry × UserRef
unfolding lookup insert
attach now id remote sess r =
    let u = user_or_new r.allocated (lookup id r.users) in
    (
      record r {
        users = insert id (joined now remote sess u) r.users;
        allocated = allocated_by (lookup id r.users) r.allocated;
      },
      record { id = id; number = u.number },
    )

unfoldable pub detach : Bytes → ℕ → Registry → Registry
unfolding adjust delete
detach id sess r = record r {
  users = adjust id (λ u. record u { sessions = delete sess u.sessions }) r.users;
}

-- A call of a method of the UserStat that a session holds
abbrev pub at_number : ℕ → (UserStat → UserStat) → UserStat → UserStat
at_number n f u = if u.number == n then f u else u

unfoldable pub report_tx : UserRef → ℕ → Registry → Registry
unfolding adjust add_tx
report_tx p n r = record r { users = adjust p.id (at_number p.number (add_tx n)) r.users }

unfoldable pub report_rx : UserRef → ℕ → Registry → Registry
unfolding adjust add_rx
report_rx p n r = record r { users = adjust p.id (at_number p.number (add_rx n)) r.users }

-- TrafficEntry
pub record TrafficEntry : Type 0 where
  pub tx : ℕ
  pub rx : ℕ

-- Snapshot
unfoldable pub snapshot : List (Bytes × UserStat) → List (Bytes × TrafficEntry)
snapshot [] = []
snapshot ((id, u) ∷ m) = (id, record { tx = u.tx; rx = u.rx }) ∷ snapshot m

-- Clear: the users with live sessions stay, with counters at 0.
abbrev pub zeroed : UserStat → UserStat
zeroed u = record u { tx = 0; rx = 0 }

unfoldable pub cleared : List (Bytes × UserStat) → List (Bytes × UserStat)
cleared [] = []
cleared ((id, u) ∷ m) = if length u.sessions == 0 then cleared m else (id, zeroed u) ∷ cleared m

unfoldable pub clear : Registry → Registry × List (Bytes × TrafficEntry)
unfolding cleared snapshot
clear r = (record r { users = cleared r.users }, snapshot r.users)

-- Online: the number of different source addresses of each user that has a session.
abbrev pub add_new : Bytes → Bool → List Bytes → List Bytes
add_new ip true ips = ips
add_new ip false ips = ip ∷ ips

unfoldable pub has : Bytes → List Bytes → Bool
unfolding ◌=b◌
has ip [] = false
has ip (x ∷ xs) = (x =b ip) || has ip xs

unfoldable pub source_ips : List (ℕ × SessionInfo) → List Bytes
unfolding host_only has
source_ips [] = []
source_ips ((sess, info) ∷ m) =
    let ips = source_ips m in add_new (host_only info.remote) (has (host_only info.remote) ips) ips

unfoldable pub online : List (Bytes × UserStat) → List (Bytes × ℕ)
unfolding source_ips
online [] = []
online ((id, u) ∷ m) =
    let n = length (source_ips u.sessions) in if ltb 0 n then (id, n) ∷ online m else online m

-- Kick: the sessions that are closed, and their number.
abbrev pub sessions_of : Option UserStat → List ℕ
sessions_of none = []
sessions_of (some u) = map (λ x. x.0) u.sessions

unfoldable pub kick : List Bytes → Registry → List ℕ × ℕ
unfolding lookup
kick ids r =
    let victims = concat (map (λ id. sessions_of (lookup id r.users)) ids) in
    (victims, length victims)
