-- ===== src/Server/Handshake.antt =====
-- handleTcpConnection of cmd/server/inbound_tcp.go up to the session, and what the client sends for
-- it, createOutboundConnection of cmd/client/myclient.go. TLS and the buffer's WriteZeroN are
-- parameters, and so is how much the first read brings.
pub mod Admission
use anytls_go.Common.{
  ℕ, ◌+◌, ◌*◌, ◌^◌, ◌%◌, Bytes, List, [], ◌∷◌, ◌++◌, Option, none, some, length, take, drop, leb,
  ltb, if◌then◌else◌,
}
use anytls_go.Padding.{Size, size, check_mark}
use anytls_go.Frame.{put_u16}
use anytls_go.Auth.{Authenticator, Answer, hex}

-- Buffer.ReadBytes: none is its error.
unfoldable pub read_bytes : ℕ → Bytes → Option (Bytes × Bytes)
read_bytes n b = if leb n (length b) then some (take n b, drop n b) else none

-- binary.BigEndian.Uint16
abbrev pub get_u16 : Bytes → ℕ
get_u16 (a ∷ b ∷ rest) = a * 256 + b
get_u16 s = 0

-- A session that starts, with the client's id and the bytes in front of the connection; or
-- fallback, with the bytes that it gets back.
pub data Admitted : Type 0 where
  session_starts : Bytes → Bytes → Admitted
  falls_back : Bytes → Admitted

abbrev pub behind_padding : Bytes → Bytes → Option (Bytes × Bytes) → Admitted
behind_padding id first none = falls_back first
behind_padding id first (some (padding, rest)) = session_starts id rest

abbrev pub with_padding_len : Bytes → Bytes → Option (Bytes × Bytes) → Admitted
with_padding_len id first none = falls_back first
with_padding_len id first (some (len, rest)) =
    if ltb 0 (get_u16 len)
    then behind_padding id first (read_bytes (get_u16 len) rest)
    else session_starts id rest

abbrev pub with_answer {ℓ} : {B : Type ℓ} → Bytes → Bytes → B × Answer → B × Admitted
with_answer first rest (b, answer) =
    if answer.accepted
    then (b, with_padding_len answer.id first (read_bytes 2 rest))
    else (b, falls_back first)

abbrev pub with_credential {ℓ} :
    {B : Type ℓ} → Authenticator B → Bytes → Bytes → B → Option (Bytes × Bytes) → B × Admitted
with_credential auth addr first b none = (b, falls_back first)
with_credential auth addr first b (some (credential, rest)) =
    with_answer first rest (auth addr (hex credential) 0 b)

-- The bytes of the first read, and what they lead to
unfoldable pub admit {ℓ} : {B : Type ℓ} → Authenticator B → Bytes → Bytes → B → B × Admitted
unfolding read_bytes hex
admit auth addr first b = with_credential auth addr first b (read_bytes 32 first)

-- The client's packet: the padding is the first size of packet 0, or 0 without one.
abbrev pub first_size : List Size → Size
first_size [] = size 0
first_size (n ∷ ns) = n

abbrev pub zeros_of : (ℕ → Bytes) → Size → Bytes
zeros_of write_zero_n (size n) = if ltb 0 n then write_zero_n n else []
zeros_of write_zero_n check_mark = []

-- uint16 of the size; a check mark is -1.
abbrev pub to_u16 : Size → ℕ
to_u16 (size n) = n % 2 ^ 16
to_u16 check_mark = 65535

unfoldable pub preface : (ℕ → Bytes) → Bytes → List Size → Bytes
preface write_zero_n password_sha256 pad =
    password_sha256 ++ (put_u16 (to_u16 (first_size pad)) ++ zeros_of write_zero_n (first_size pad))
