-- ===== src/Stats/Traffic.antt =====
-- The balance of a user's traffic: what sessions report, what clearing snapshots give, and what the
-- counter holds.
use anytls_go.Common.Maps.{bytes_key, nat_key}
use anytls_go.Stats.Account.{Account}
