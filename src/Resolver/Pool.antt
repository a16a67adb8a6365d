-- ===== src/Resolver/Pool.antt =====
-- resolver/pool.go: the idle connections to the DNS server and the queries that own one. A
-- connection is its number; the client's exchange is what the environment chooses.
pub mod Owned
use anytls_go.Common.{
  ℕ, suc, ◌+◌, List, [], ◌∷◌, ◌++◌, Option, none, some, Bool, length, ltb, if◌then◌else◌, ◌≡◌,
}

-- maxIdleDNSConns
abbrev pub max_idle_dns_conns : ℕ
max_idle_dns_conns = 8

-- connPool's channel, the connections of the queries on their way, those that were closed, and the
-- number of those that were dialed
pub record ConnPool : Type 0 where
  pub idle : List ℕ
  pub busy : List ℕ
  pub closed : List ℕ
  pub dialed : ℕ

abbrev pub new_conn_pool : ConnPool
new_conn_pool = record { idle = []; busy = []; closed = []; dialed = 0 }

-- get
abbrev pub take_first : ConnPool → List ℕ → Option (ℕ × ConnPool)
take_first p [] = none
take_first p (c ∷ rest) = some (c, record p { idle = rest; busy = c ∷ p.busy })

unfoldable pub get : ConnPool → Option (ℕ × ConnPool)
get p = take_first p p.idle

-- put of a connection that its query hands back
unfoldable pub put : ℕ → List ℕ → ConnPool → ConnPool
put c others p =
    if ltb (length p.idle) max_idle_dns_conns
    then record p { idle = p.idle ++ c ∷ []; busy = others }
    else record p { busy = others; closed = c ∷ p.closed }

-- A new connection
unfoldable pub dial : ConnPool → ConnPool
dial p = record p { busy = p.dialed ∷ p.busy; dialed = suc p.dialed }

-- exchangeOn, behind the exchange: `good` says that it was without an error.
unfoldable pub exchange_on : Bool → ℕ → List ℕ → ConnPool → ConnPool
unfolding put
exchange_on good c others p =
    if good then put c others p else record p { busy = others; closed = c ∷ p.closed }

-- The steps of all queries: one takes an idle connection, one gets a connection that it dialed,
-- since it found none idle some time before or was refused on an idle one, and an exchange ends.
pub data Step (p : ConnPool) : ConnPool → Type 0 where
  takes : (c : ℕ) (q : ConnPool) → get p ≡ some (c, q) → Step p q
  dials : Step p (dial p)
  ends :
      (good : Bool) (c : ℕ) (before after : List ℕ)
      → p.busy ≡ before ++ c ∷ after
      → Step p (exchange_on good c (before ++ after) p)

pub data Reach (p : ConnPool) : ConnPool → Type 0 where
  here : Reach p p
  next : {q r : ConnPool} → Reach p q → Step q r → Reach p r
