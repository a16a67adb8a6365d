-- ===== src/Stats/Account.antt =====
-- The history of the traffic of the users: sessions that hold a UserStat from Attach to Detach and
-- report to it, and Clears.
use anytls_go.Common.{
  ℕ, ◌+◌, ◌%◌, Bytes, List, [], ◌∷◌, Option, none, some, Bool, true, false, ◌=b◌, ◌≡◌, ◌≢◌,
}
use anytls_go.Common.Maps.{lookup, insert, delete, bytes_key, nat_key}
use anytls_go.Stats.{
  UserStat, UserRef, Registry, new_registry, TrafficEntry, attach, detach, report_tx, clear, u64,
}

-- What can happen to the traffic of the users: a session gets the UserStat of its user, it ends, it
-- reports bytes to the UserStat that it holds, and Clear.
pub data Event : Type 0 where
  attached : ℕ → Bytes → Bytes → ℕ → Event
  detached : ℕ → Event
  reported : ℕ → ℕ → Event
  cleared_all : Event

-- The count of a user, 0 for one that is not known, and the count that a snapshot gives.
abbrev pub tx_of : Option UserStat → ℕ
tx_of none = 0
tx_of (some u) = u.tx

abbrev pub entry_tx : Option TrafficEntry → ℕ
entry_tx none = 0
entry_tx (some e) = e.tx

abbrev pub current : Bytes → Registry → ℕ
current id r = tx_of (lookup id r.users)

-- The registry, the UserStat that each session holds, and for one user the bytes that the sessions
-- reported and those that Clear gave.
pub record Account : Type 0 where
  pub registry : Registry
  pub held : List (ℕ × UserRef)
  pub reported_bytes : ℕ
  pub given : ℕ

abbrev pub own : Bool → ℕ → ℕ
own true n = n
own false n = 0

abbrev pub ends : ℕ → Option UserRef → Account → Account
ends sess none a = a
ends sess (some p) a = record a {
  registry = detach p.id sess a.registry;
  held = delete sess a.held;
}

abbrev pub counts : Bytes → ℕ → Option UserRef → Account → Account
counts who n none a = a
counts who n (some p) a = record a {
  registry = report_tx p n a.registry;
  reported_bytes = a.reported_bytes + own (p.id =b who) n;
}

unfoldable pub happen : Bytes → Event → Account → Account
unfolding attach detach report_tx clear lookup insert delete ◌=b◌
happen who (attached now id remote sess) a = record a {
  registry = (attach now id remote sess a.registry).0;
  held = insert sess (attach now id remote sess a.registry).1 a.held;
}
happen who (detached sess) a = ends sess (lookup sess a.held) a
happen who (reported sess n) a = counts who n (lookup sess a.held) a
happen who cleared_all a = record a {
  registry = (clear a.registry).0;
  given = a.given + entry_tx (lookup who (clear a.registry).1);
}

unfoldable pub history : Bytes → List Event → Account → Account
unfolding happen
history who [] a = a
history who (e ∷ es) a = history who es (happen who e a)

abbrev pub no_traffic : Account
no_traffic = record { registry = new_registry; held = []; reported_bytes = 0; given = 0 }

-- The user's UserStat in the registry is the one that the session holds, and lists the session.
abbrev pub Lists : ℕ → ℕ → Option UserStat → Type 0
Lists sess n none = ⊥
Lists sess n (some u) = (u.number ≡ n) × (lookup sess u.sessions ≢ none)

pub record IsBalanced (who : Bytes) (a : Account) : Type 0 where
  pub balanced : (a.given + current who a.registry) % u64 ≡ a.reported_bytes % u64
  pub listed :
      (sess : ℕ) (p : UserRef)
      → lookup sess a.held ≡ some p
      → Lists sess p.number (lookup p.id a.registry.users)
