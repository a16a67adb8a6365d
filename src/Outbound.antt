-- ===== src/Outbound.antt =====
-- The package outbound: its kinds of outbound, and the addresses of the server. Dialing is a
-- parameter of the code that dials.
use anytls_go.Common.{
  ℕ, Bytes, [], Option, none, some, Bool, true, false, length, ◌==◌, if◌then◌else◌,
}
use anytls_go.Acl.Host.{to4}

-- netip.Addr by its bytes, none for the invalid one; zones are left out. M.Socksaddr, with what its
-- IsFqdn answers.
pub record Socksaddr : Type 0 where
  pub fqdn : Bytes
  pub is_fqdn : Bool
  pub addr : Bytes
  pub port : ℕ

-- M.SocksaddrFrom
abbrev pub socksaddr_from : Bytes → ℕ → Socksaddr
socksaddr_from addr port = record { fqdn = []; is_fqdn = false; addr = addr; port = port }

-- Addr.IsValid
abbrev pub is_ip : Socksaddr → Bool
is_ip d = if length d.addr == 0 then false else true

-- SOCKS5
pub record Socks5 : Type 0 where
  pub server : Bytes
  pub username : Bytes
  pub password : Bytes

-- The values of the interface Outbound, those behind a pointer with a number for it.
pub data Outbound : Type 0 where
  reject : Outbound
  direct : ℕ → Outbound
  socks5 : ℕ → Socks5 → Outbound

-- The three methods RemoteResolve
abbrev pub remote_resolve : Outbound → Bool
remote_resolve reject = false
remote_resolve (direct n) = false
remote_resolve (socks5 n s) = true

abbrev pub is_reject : Outbound → Bool
is_reject reject = true
is_reject (direct n) = false
is_reject (socks5 n s) = false

-- == of two values of the interface: pointers by their number.
abbrev pub same_outbound : Outbound → Outbound → Bool
same_outbound reject reject = true
same_outbound (direct n) (direct m) = n == m
same_outbound (socks5 n s) (socks5 m t) = n == m
same_outbound a b = false

-- Addr.Unmap
abbrev pub unmap_or : Option Bytes → Bytes → Bytes
unmap_or (some v4) addr = v4
unmap_or none addr = addr

unfoldable pub unmap : Bytes → Bytes
unfolding to4
unmap addr = unmap_or (to4 addr) addr
