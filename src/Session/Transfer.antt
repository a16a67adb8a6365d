-- ===== src/Session/Transfer.antt =====
-- From Stream.Write at one end to the stream's pipe at the other.
pub mod Wrote
pub mod Chunks
pub mod Delivery
pub mod EndToEnd
use anytls_go.Common.{ℕ, ◌≡◌, ◌⊎◌, Bytes, List, [], ◌∷◌, ◌++◌, All, replicate, map}
use anytls_go.Frame.{Command, waste, psh, Frame, max_frame_payload}
use anytls_go.Padding.{PaddingFactory, generate_sizes}
use anytls_go.Session.Write.{Env, psh_frame}
use anytls_go.Session.Padded.{AtMost}

-- No size that the factory asks for overflows the 16-bit length of a padding frame.
abbrev pub IsBounded : Env → PaddingFactory → Type 0
IsBounded env f = (pkt : ℕ) → All (AtMost max_frame_payload) (generate_sizes (env.draw pkt) f pkt)

abbrev pub waste_of : ℕ → Frame
waste_of l = record { cmd = waste; sid = 0; payload = replicate l 0 }

-- Frames of one stream's data p, with padding in any place.
pub data Spells (sid : ℕ) : List Frame → Bytes → Type 0 where
  nothing : Spells sid [] []
  chunk :
      (q : Bytes) {fs : List Frame} {p : Bytes}
      → Spells sid fs p
      → Spells sid (psh_frame sid q ∷ fs) (q ++ p)
  filler : (l : ℕ) {fs : List Frame} {p : Bytes} → Spells sid fs p → Spells sid (waste_of l ∷ fs) p
