-- ===== src/Tests.antt =====
-- Small runs of the session, the frames and the padding, at which the theorems apply.
use anytls_go.Common.{
  ℕ, ◌≡◌, refl, Bytes, List, [], ◌∷◌, ◌++◌, none, some, true, false, codes, length, All, arith,
  if_elim, ◌=b◌,
}
use anytls_go.Common.Maps.{lookup, bytes_key}
use anytls_go.Text.{itoa}
use anytls_go.Frame.{Frame, psh, syn, settings, fin, alert, read_header, encode, max_frame_payload}
use anytls_go.Frame.Codec.{header_of, read_header-encode}
use anytls_go.StringMap.{StringMap, from_bytes, to_bytes}
use anytls_go.StringMap.RoundTrip.{from_bytes-to_bytes}
use anytls_go.Padding.{PaddingFactory, size, check_mark, generate_sizes, sizes_of}
use anytls_go.Session.Conn.{Conn}
use anytls_go.Session.State.{Session, new_session}
use anytls_go.Session.Write.{Env, psh_frame, write_data_frame, send_padded}
use anytls_go.Session.Recv.{Recv, recv, round}
use anytls_go.Session.Frames.{encode_all, on_frame, run_frames}
use anytls_go.Session.Frames.Refine.{recv_reply, recv-run_frames, round-encode, resume}
use anytls_go.Session.Wire.{wire}
use anytls_go.Session.Padded.{AtMost, Sends, send_padded-Sends}
use anytls_go.Session.Transfer.{IsBounded}
use anytls_go.Session.Transfer.Wrote.{IsDirect}
use anytls_go.Session.Transfer.Chunks.{Streamed, write_data_frame-Streamed}
use anytls_go.Session.Transfer.EndToEnd.{Delivers, write-recv}
use anytls_go.Session.Reliable.{IsReliable}
use anytls_go.Session.Invariant.{IsCapped}
use anytls_go.Session.Invariant.Runs.{run-new-IsCapped}
use anytls_go.Session.Steps.{Action, receive, write, shut, shut_all, run}

abbrev lowest : ℕ → ℕ → ℕ
lowest i m = 0

abbrev small_env : Env
small_env = record { md5 = λ b. b; draw = λ pkt. lowest; debug_padding = false }

-- The first packet is padded to 30 bytes.
abbrev small_padding : PaddingFactory
small_padding = record {
  scheme = (codes "1", codes "c,30-40") ∷ [];
  raw_scheme = codes "stop=8";
  stop = 8;
  md5 = codes "hash";
}

abbrev open_conn : Conn
open_conn = record {
  sent = [];
  fate = λ k. none;
  writes = 0;
  closed = false;
  limited = true;
  grants = λ k. true;
  waits = 0;
  charged = 0;
  deadline = false;
}

abbrev client : Session
client = new_session true open_conn small_padding

abbrev server : Recv
server = record { session = new_session false open_conn small_padding; got_settings = true }

small-IsBounded : IsBounded small_env small_padding
unfolding generate_sizes lookup
small-IsBounded pkt =
    if_elim (λ o. All (AtMost max_frame_payload) (sizes_of lowest o)) (codes "1" =b itoa pkt)
      (some (codes "c,30-40")) none (λ e. (tt, (omega arith, tt))) (λ e. tt)

client-IsDirect : IsDirect client
client-IsDirect = unfold new_session in record { direct = refl; empty = refl }

open-IsReliable : IsReliable client.conn
open-IsReliable =
    unfold new_session in record { live = refl; accepts = λ k. refl; grants = λ k. refl }

write-recv_example :
    let x = write_data_frame small_env 1 (codes "hi") client in
    (x.1 ≡ length (codes "hi"))
    × (x.2 ≡ none)
    × ((sent : Bytes) × (wire x.0.conn ≡ wire client.conn ++ sent) × Delivers 1 (codes "hi") sent)
write-recv_example =
    write-recv small_env 1 (codes "hi") client (omega arith) client-IsDirect
      (unfold new_session in small-IsBounded) open-IsReliable

abbrev two_frames : List Frame
two_frames = psh_frame 1 (codes "hi") ∷ record { cmd = alert; sid = 0; payload = codes "bye" } ∷ []

recv-run_frames_example :
    recv small_env (encode_all two_frames ++ codes "rest") server
    ≡ recv_reply small_env (codes "rest") (run_frames small_env two_frames server)
recv-run_frames_example = recv-run_frames small_env two_frames (codes "rest") server (
  (record { known = tt; sid_fits = omega arith; payload_fits = omega arith }, tt),
  ((record { known = tt; sid_fits = omega arith; payload_fits = omega arith }, tt), tt),
)

written_example :
    Streamed 1
      (wire client.conn)
      (codes "hi")
      (length (codes "hi"))
      (write_data_frame small_env 1 (codes "hi") client)
written_example =
    write_data_frame-Streamed small_env 1 (codes "hi") client (omega arith) client-IsDirect
      (unfold new_session in small-IsBounded)

padded_example :
    Sends 30
      (wire open_conn)
      (codes "hi")
      (send_padded false (check_mark ∷ size 30 ∷ []) (codes "hi") open_conn)
padded_example =
    send_padded-Sends 30 false (check_mark ∷ size 30 ∷ []) (codes "hi") open_conn
      (tt, (omega arith, tt))

abbrev small_run : List Action
small_run =
    receive (record { cmd = settings; sid = 0; payload = codes "v=2" })
    ∷ receive (record { cmd = syn; sid = 1; payload = [] })
    ∷ write 1 false (codes "hi")
    ∷ shut 1
    ∷ receive (psh_frame 1 (codes "late"))
    ∷ shut_all
    ∷ receive (record { cmd = syn; sid = 2; payload = [] })
    ∷ []

capped_example :
    IsCapped
      (run small_env small_run (record {
        session = new_session false open_conn small_padding;
        got_settings = false;
      })).session
capped_example = run-new-IsCapped small_env false open_conn small_padding small_run

round_example :
    round small_env
      (encode (record { cmd = psh; sid = 1; payload = codes "hi" }) ++ codes "rest")
      server
    ≡ resume
        (codes "rest")
        (on_frame small_env (record { cmd = psh; sid = 1; payload = codes "hi" }) server)
round_example =
    round-encode small_env (record { cmd = psh; sid = 1; payload = codes "hi" }) (codes "rest")
      server (record { known = tt; sid_fits = omega arith; payload_fits = omega arith }) tt
      (unfold new_session in refl)

header_example :
    read_header (encode (record { cmd = fin; sid = 7; payload = [] }) ++ codes "rest")
    ≡ some (header_of (record { cmd = fin; sid = 7; payload = [] }), [] ++ codes "rest")
header_example =
    read_header-encode (record { cmd = fin; sid = 7; payload = [] }) (codes "rest")
      (record { known = tt; sid_fits = omega arith; payload_fits = omega arith })

abbrev small_map : StringMap
small_map = (codes "v", codes "2") ∷ (codes "client", codes "a=b") ∷ []

map_example : from_bytes (to_bytes small_map) ≡ small_map
map_example =
    from_bytes-to_bytes small_map (unfold lookup in unfold ◌=b◌ in (refl, (refl, tt)))
      (ground arith)
