-- ===== src/Acl/Ports.antt =====
-- What parseProtoPort lets through.
use anytls_go.Common.{
  ℕ, ◌≤◌, ◌<◌, ◌^◌, Bytes, [], ◌||◌, Option, none, some, arith, ltb, ◌=b◌, codes, if_elim, ltb→lt,
  ltb→le,
}
use anytls_go.Text.{cut, parse_digits}
use anytls_go.Text.Words.{to_lower, trim_space}
use anytls_go.Acl.Rules.{Protocol}
use anytls_go.Acl.Compile.{
  Ports, below_u16, parse_uint16, protocol_alone, protocol_of, one_port, port_range, ports_of,
  protocol_ports, parts_of, parse_proto_port,
}

-- The range is not empty and fits 16 bits.
abbrev pub IsRange : Option Ports → Type 0
IsRange none = Unit {0}
IsRange (some (proto, start, end)) = (start ≤ end) × (end < 2 ^ 16)

abbrev pub IsPort : Option ℕ → Type 0
IsPort none = Unit {0}
IsPort (some p) = p < 2 ^ 16

below-IsPort : (o : Option ℕ) → IsPort (below_u16 o)
below-IsPort none = tt
below-IsPort (some n) =
    if_elim IsPort (ltb n (2 ^ 16)) (some n) none (λ e. ltb→lt n (2 ^ 16) e) (λ e. tt)

parse-IsPort : (s : Bytes) → IsPort (parse_uint16 s)
unfolding parse_uint16
parse-IsPort s = below-IsPort (parse_digits s)

alone-IsRange : (s : Bytes) → IsRange (protocol_alone s)
alone-IsRange s =
    if_elim IsRange (s =b codes "tcp") _ _ (λ e. (omega arith, omega arith))
      (λ e. if_elim IsRange (s =b codes "udp") _ _ (λ d. (omega arith, omega arith)) (λ d. tt))

one-IsRange : (proto : Protocol) (p : Option ℕ) → IsPort p → IsRange (one_port proto p)
one-IsRange proto none h = tt
one-IsRange proto (some p) h = (omega arith, h)

port_range-IsRange : (proto : Protocol) (p q : Option ℕ) → IsPort q → IsRange (port_range proto p q)
port_range-IsRange proto none q h = tt
port_range-IsRange proto (some p) none h = tt
port_range-IsRange proto (some p) (some q) h =
    if_elim IsRange (ltb q p) none (some (proto, p, q)) (λ e. tt) (λ e. (ltb→le q p e, h))

ports-IsRange :
    (proto : Protocol) (given : Bytes) (c : Option (Bytes × Bytes))
    → IsRange (ports_of proto given c)
ports-IsRange proto given none = one-IsRange proto (parse_uint16 given) (parse-IsPort given)
ports-IsRange proto given (some (a, b)) =
    port_range-IsRange proto (parse_uint16 a) (parse_uint16 b) (parse-IsPort b)

protocol-IsRange : (o : Option Protocol) (p : Bytes) → IsRange (protocol_ports o p)
protocol-IsRange none p = tt
protocol-IsRange (some proto) p =
    if_elim IsRange (p =b codes "*") _ _ (λ e. (omega arith, omega arith))
      (λ e. ports-IsRange proto p (cut b'-' (trim_space p)))

parts-IsRange : (s : Bytes) (c : Option (Bytes × Bytes)) → IsRange (parts_of s c)
parts-IsRange s none = alone-IsRange s
parts-IsRange s (some (a, b)) = protocol-IsRange (protocol_of a) b

-- Every protocol and port field that is accepted gives a port range whose start is at most its end,
-- both within 16 bits.
pub parse_proto_port-IsRange : (given : Bytes) → IsRange (parse_proto_port given)
unfolding parse_proto_port
parse_proto_port-IsRange given =
    let s = to_lower given in
    if_elim IsRange ((s =b []) || (s =b codes "*") || (s =b codes "*/*")) _ _
      (λ e. (omega arith, omega arith)) (λ e. parts-IsRange s (cut b'/' s))
