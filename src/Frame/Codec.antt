-- ===== src/Frame/Codec.antt =====
-- What encode and read_header owe each other.
use anytls_go.Common.{
  ℕ, ◌+◌, ◌*◌, ◌/◌, ◌%◌, ◌^◌, ◌<◌, ◌≤◌, ◌≡◌, refl, Bytes, ◌++◌, some, length, arith, length-append,
  take-append_length, drop-append_length,
}
use anytls_go.Frame.{
  Command, waste, syn, psh, fin, settings, alert, update_padding_scheme, syn_ack, heart_request,
  heart_response, server_settings, unknown, to_byte, of_byte, Frame, Header, encode, read_header,
  read_full, u32, u16, max_frame_payload, header_size,
}

-- A command that recvLoop reads back as itself.
abbrev pub IsKnown : Command → Type 0
IsKnown (unknown b) = 10 < b
IsKnown _ = Unit {0}

-- A frame that the 32-bit stream id and the 16-bit length field can carry.
pub record Fits (f : Frame) : Type 0 where
  pub known : IsKnown f.cmd
  pub sid_fits : f.sid < u32
  pub payload_fits : length f.payload ≤ max_frame_payload

pub of_byte-to_byte : (c : Command) → IsKnown c → of_byte (to_byte c) ≡ c
unfolding of_byte to_byte
of_byte-to_byte waste h = refl
of_byte-to_byte syn h = refl
of_byte-to_byte psh h = refl
of_byte-to_byte fin h = refl
of_byte-to_byte settings h = refl
of_byte-to_byte alert h = refl
of_byte-to_byte update_padding_scheme h = refl
of_byte-to_byte syn_ack h = refl
of_byte-to_byte heart_request h = refl
of_byte-to_byte heart_response h = refl
of_byte-to_byte server_settings h = refl
of_byte-to_byte (unknown b) h = ground arith

be_u32 :
    (v : ℕ)
    → v < u32
    → v / 2 ^ 24 % 256 * 2 ^ 24 + v / 2 ^ 16 % 256 * 2 ^ 16 + v / 2 ^ 8 % 256 * 2 ^ 8 + v % 256 ≡ v
be_u32 v h = omega arith

be_u16 : (n : ℕ) → n ≤ max_frame_payload → n % u16 / 2 ^ 8 % 256 * 2 ^ 8 + n % u16 % 256 ≡ n
be_u16 n h = omega arith

-- The header that a frame is read back with.
abbrev pub header_of : Frame → Header
header_of f = record { cmd = f.cmd; sid = f.sid; len = length f.payload }

-- For a frame whose command is a named one or a number above 10 and whose id and payload fit their
-- fields, what one header read takes from its encoding, whatever follows it, are the frame's own
-- command, stream id and length, and the payload is what comes next.
pub read_header-encode :
    (f : Frame) (rest : Bytes)
    → Fits f
    → read_header (encode f ++ rest) ≡ some (header_of f, f.payload ++ rest)
unfolding read_header encode
read_header-encode f rest h = ground (
  arith,
  of_byte-to_byte f.cmd h.known,
  be_u32 f.sid h.sid_fits,
  be_u16 (length f.payload) h.payload_fits,
)

pub read_full-append : (p rest : Bytes) → read_full (length p) (p ++ rest) ≡ some (p, rest)
unfolding read_full
read_full-append p rest =
    ground (arith, length-append p rest, take-append_length p rest, drop-append_length p rest)

pub length-encode : (f : Frame) → length (encode f) ≡ header_size + length f.payload
unfolding encode
length-encode f = omega arith
