-- ===== src/Packets.antt =====
-- signal/router.go: the packets that two nodes exchange about tracks, byte by byte. UUIDs are 16 bytes;
-- their texts, and the bytes of an RTP packet, are parameters.
pub mod Buffers
pub mod Tracks
pub mod Setup
use conference_go.Common.{
  ℕ, zero, suc, ◌+◌, ◌-◌, ◌==◌, ltb, leb, String, Bool, true, false, not, ◌&&◌, List, [], ◌∷◌, ◌++◌,
  Option, none, some, if◌then◌else◌, Result, ok, panic, index, ◌>>=◌, length, take, drop,
}
use conference_go.Frames.{Bytes}
use conference_go.Socket.{bytes_eq}

abbrev pub magic_setup : Bytes
magic_setup = b'c' ∷ b'o' ∷ b'n' ∷ b's' ∷ b'e' ∷ b't' ∷ b'u' ∷ b'p' ∷ []

abbrev pub magic_ark : Bytes
magic_ark = b'c' ∷ b'o' ∷ b'n' ∷ b'n' ∷ b'e' ∷ b'a' ∷ b'r' ∷ b'k' ∷ []

abbrev pub magic_packet : Bytes
magic_packet = b's' ∷ b'u' ∷ b'b' ∷ b'r' ∷ []

abbrev pub magic_eof : Bytes
magic_eof = b'e' ∷ b'o' ∷ b'f' ∷ b'p' ∷ []

abbrev pub packet_max_size : ℕ
packet_max_size = 1600

abbrev pub packet_track_header_size : ℕ
packet_track_header_size = 20

abbrev pub zeros : ℕ → Bytes
zeros zero = []
zeros (suc n) = 0 ∷ zeros n

-- `copy(dst, src)` writes as many bytes as both have.
unfoldable pub copy : Bytes → Bytes → Bytes
copy [] src = []
copy (d ∷ dst) [] = d ∷ dst
copy (d ∷ dst) (c ∷ src) = c ∷ copy dst src

-- `copy(dst[n:], src)`
unfoldable pub copy_at : ℕ → Bytes → Bytes → Bytes
unfolding copy
copy_at zero src dst = copy dst src
copy_at (suc n) src [] = []
copy_at (suc n) src (d ∷ dst) = d ∷ copy_at n src dst

-- `b[from:to]`, of an array or a slice without more capacity
abbrev pub slice : ℕ → ℕ → Bytes → Result Bytes
slice from to b =
    if leb from to && leb to (length b) then ok (take (to - from) (drop from b)) else panic index

-- `NewSetupPacketBuf` and `NewSetupArkPacketBuf`, with the magic bytes
abbrev setup_buf : Bytes → Bytes → Bytes
setup_buf magic id = copy_at 8 id (copy_at 0 magic (zeros 24))

unfoldable pub new_setup_packet_buf : Bytes → Bytes
unfolding copy_at
new_setup_packet_buf id = setup_buf magic_setup id

unfoldable pub new_setup_ark_packet_buf : Bytes → Bytes
unfolding copy_at
new_setup_ark_packet_buf id = setup_buf magic_ark id

-- Some bytes, compared; the guard on the size makes the slice safe.
abbrev has_bytes : ℕ → ℕ → Bytes → Bytes → Bool
has_bytes from to b expected =
    if ltb (length b) 24 then false else bytes_eq (take (to - from) (drop from b)) expected

-- `IsSetup`
unfoldable pub is_setup : Bytes → Bool
unfolding bytes_eq
is_setup b = has_bytes 0 8 b magic_setup

-- `IsSetupArk`
unfoldable pub is_setup_ark : Bytes → Bool
unfolding bytes_eq
is_setup_ark b = has_bytes 0 8 b magic_ark

-- `IsSetupId`
unfoldable pub is_setup_id : Bytes → Bytes → Bool
unfolding bytes_eq
is_setup_id b id = has_bytes 8 24 b id

-- The answer of a decoder: the transport's id, or an error.
pub data SetupPacket : Type 0 where
  transport : Bytes → SetupPacket
  wrong_size wrong_magic : SetupPacket

abbrev decode_setup : Bytes → Bytes → ℕ → Result SetupPacket
decode_setup magic buf n =
    if not (n == 24)
    then ok wrong_size
    else slice 0 8 buf >>= λ m.
        if bytes_eq m magic then (slice 8 24 buf >>= λ id. ok (transport id)) else ok wrong_magic

-- `DecodeSetupPacket`
unfoldable pub decode_setup_packet : Bytes → ℕ → Result SetupPacket
unfolding bytes_eq
decode_setup_packet buf n = decode_setup magic_setup buf n

-- `DecodeSetupArkPacket`
unfoldable pub decode_setup_ark_packet : Bytes → ℕ → Result SetupPacket
unfolding bytes_eq
decode_setup_ark_packet buf n = decode_setup magic_ark buf n

pub record Packet : Type 0 where
  pub track_id : String
  pub bytes : Bytes
  pub n : ℕ

-- What the constructors of packets answer.
pub data Made : Type 0 where
  made : Packet → Made
  bad_uuid too_big not_marshalled : Made

-- The header of a packet, written over its first bytes.
abbrev pub with_header : Bytes → Bytes → Bytes → Bytes
with_header magic id b = copy_at 4 id (copy_at 0 magic b)

module _ (parse : String → Option Bytes) (print : Bytes → String) where
  abbrev pub eof_packet : String → Packet → Option Bytes → Made
  eof_packet track_id p none = bad_uuid
  eof_packet track_id p (some id) = made (record {
    track_id = track_id;
    bytes = with_header magic_eof id p.bytes;
    n = packet_track_header_size;
  })

  -- `NewEOFPacket`, with the packet that comes from the pool
  unfoldable pub new_eof_packet : String → Packet → Made
  unfolding copy_at
  new_eof_packet track_id p = eof_packet track_id p (parse track_id)

  abbrev marshalled_packet : String → Packet → Bytes → Option Bytes → Made
  marshalled_packet track_id p id none = not_marshalled
  marshalled_packet track_id p id (some raw) = made (record {
    track_id = track_id;
    bytes = with_header magic_packet id (copy_at packet_track_header_size raw p.bytes);
    n = length raw + packet_track_header_size;
  })

  abbrev pub data_packet : String → ℕ → Option Bytes → Packet → Option Bytes → Made
  data_packet track_id size raw p none = bad_uuid
  data_packet track_id size raw p (some id) =
      if ltb (packet_max_size - packet_track_header_size) size
      then too_big
      else marshalled_packet track_id p id raw

  -- `NewDataPacket`, with the size that the RTP packet tells and the bytes it writes
  unfoldable pub new_data_packet : String → ℕ → Option Bytes → Packet → Made
  unfolding copy_at
  new_data_packet track_id size raw p = data_packet track_id size raw p (parse track_id)

  abbrev pub buf_packet : String → Bytes → Packet → Option Bytes → Made
  buf_packet track_id buf p none = bad_uuid
  buf_packet track_id buf p (some id) = made (record {
    track_id = track_id;
    bytes = copy_at packet_track_header_size buf (with_header magic_packet id p.bytes);
    n = length buf + packet_track_header_size;
  })

  -- `NewPacketFromBuf`: the size of the buffer is not checked
  unfoldable pub new_packet_from_buf : String → Bytes → Packet → Made
  unfolding copy_at
  new_packet_from_buf track_id buf p = buf_packet track_id buf p (parse track_id)

  -- `ExtractPacket`; a UUID of 16 bytes always reads
  unfoldable pub extract_packet : Bytes → Result (String × Bytes)
  extract_packet b = slice 4 packet_track_header_size b >>= λ id. ok (
    print id,
    if ltb packet_track_header_size (length b) then drop packet_track_header_size b else [],
  )

-- `IsDataPacket`
unfoldable pub is_data_packet : Bytes → Bool
unfolding bytes_eq
is_data_packet b = if leb (length b) 20 then false else bytes_eq (take 4 b) magic_packet

-- `IsEofPacket`
unfoldable pub is_eof_packet : Bytes → Bool
unfolding bytes_eq
is_eof_packet b =
    if not (length b == packet_track_header_size) then false else bytes_eq (take 4 b) magic_eof

-- `p.data[:p.n]`
abbrev pub packet_content : Packet → Result Bytes
packet_content p = slice 0 p.n p.bytes

-- `Packet.IsEOF` and `Packet.IsData`
abbrev pub is_eof : Packet → Result Bool
is_eof p = packet_content p >>= λ b. ok (is_eof_packet b)

abbrev pub is_data : Packet → Result Bool
is_data p = packet_content p >>= λ b. ok (is_data_packet b)
