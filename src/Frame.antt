-- ===== src/Frame.antt =====
-- proxy/session/frame.go: the commands, the frame and its seven-byte header, with the encoding
-- that session.go writes and reads through encoding/binary (big endian).
pub mod Codec
use anytls_go.Common.{
  ℕ, ◌+◌, ◌*◌, ◌/◌, ◌%◌, ◌^◌, Bytes, List, [], ◌∷◌, ◌++◌, Option, none, some, length, take, drop,
  leb, ◌==◌, if◌then◌else◌,
}

-- The byte constants, and whatever else a peer may send.
pub data Command : Type 0 where
  waste syn psh fin settings alert update_padding_scheme : Command
  syn_ack heart_request heart_response server_settings : Command
  unknown : ℕ → Command

unfoldable pub to_byte : Command → ℕ
to_byte waste = 0
to_byte syn = 1
to_byte psh = 2
to_byte fin = 3
to_byte settings = 4
to_byte alert = 5
to_byte update_padding_scheme = 6
to_byte syn_ack = 7
to_byte heart_request = 8
to_byte heart_response = 9
to_byte server_settings = 10
to_byte (unknown b) = b

-- The switch of recvLoop over the command byte.
unfoldable pub of_byte : ℕ → Command
of_byte b =
    if b == 0
    then waste
    else if b == 1
    then syn
    else if b == 2
    then psh
    else if b == 3
    then fin
    else if b == 4
    then settings
    else if b == 5
    then alert
    else if b == 6
    then update_padding_scheme
    else if b == 7
    then syn_ack
    else if b == 8
    then heart_request
    else if b == 9
    then heart_response
    else if b == 10
    then server_settings
    else unknown b

abbrev pub header_size : ℕ
header_size = 7

-- math.MaxUint16
abbrev pub max_frame_payload : ℕ
max_frame_payload = 65535

abbrev pub u16 : ℕ
u16 = 2 ^ 16

abbrev pub u32 : ℕ
u32 = 2 ^ 32

pub record Frame : Type 0 where
  pub cmd : Command
  pub sid : ℕ
  pub payload : Bytes

unfoldable pub new_frame : Command → ℕ → Frame
new_frame cmd sid = record { cmd = cmd; sid = sid; payload = [] }

-- binary.BigEndian.PutUint32 and PutUint16
abbrev pub put_u32 : ℕ → Bytes
put_u32 v = v / 2 ^ 24 % 256 ∷ v / 2 ^ 16 % 256 ∷ v / 2 ^ 8 % 256 ∷ v % 256 ∷ []

abbrev pub put_u16 : ℕ → Bytes
put_u16 v = v / 2 ^ 8 % 256 ∷ v % 256 ∷ []

-- The header and the data as they go into the connection; the length field is uint16(len(data)).
unfoldable pub encode : Frame → Bytes
encode f = to_byte f.cmd ∷ (put_u32 f.sid ++ (put_u16 (length f.payload % u16) ++ f.payload))

pub record Header : Type 0 where
  pub cmd : Command
  pub sid : ℕ
  pub len : ℕ

-- io.ReadFull of seven bytes, then Cmd, StreamID and Length of rawHeader.
unfoldable pub read_header : Bytes → Option (Header × Bytes)
read_header (c ∷ a ∷ b ∷ d ∷ e ∷ l ∷ m ∷ rest) = some (
  record { cmd = of_byte c; sid = a * 2 ^ 24 + b * 2 ^ 16 + d * 2 ^ 8 + e; len = l * 2 ^ 8 + m },
  rest,
)
read_header _ = none

-- io.ReadFull of n bytes
unfoldable pub read_full : ℕ → Bytes → Option (Bytes × Bytes)
read_full n input = if leb n (length input) then some (take n input, drop n input) else none
