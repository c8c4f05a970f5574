-- ===== src/Transceivers.antt =====
-- signal/model.go: the transceivers of a session's WebRTC connection, and the text that names one to the
-- client: its mid, or, as long as it has none, its position. Such a text is a list of bytes here.
pub mod Naming
use conference_go.Common.{
  ℕ, suc, ◌+◌, ◌^◌, ◌==◌, leb, ltb, String, code, Bool, true, false, not, ◌&&◌, ◌||◌, List, [], ◌∷◌,
  ◌++◌, Option, none, some, str_eq, if◌then◌else◌, Result, ok, panic, invalid, ◌>>=◌,
}
use conference_go.Frames.{Bytes, format, parse_uint}
use conference_go.Socket.{bytes_eq}
use conference_go.Protocol.{WebrtcParameters}

-- A track of the remote side, with a number for the object that stands for it.
pub record RemoteTrack : Type 0 where
  pub handle : ℕ
  pub id : String
  pub rid : String
  pub stream_id : String
  pub codec : WebrtcParameters

-- The sender is a number for the object; the receiver may be nil.
pub record Transceiver : Type 0 where
  pub mid : Bytes
  pub sender : ℕ
  pub receiver : Option (List RemoteTrack)

-- `findTransiverBySender`, from the position
unfoldable pub find_transiver_by_sender : ℕ → List Transceiver → ℕ → Option (Transceiver × ℕ)
find_transiver_by_sender i [] sender = none
find_transiver_by_sender i (t ∷ ts) sender =
    let later = find_transiver_by_sender (suc i) ts sender in
    if t.sender == sender then some (t, i) else later

-- `pos:`, and `fmt.Sprintf("pos:%d", pos)`
abbrev pub pos_prefix : Bytes
pos_prefix = b'p' ∷ b'o' ∷ b's' ∷ b':' ∷ []

abbrev pub pos_text : ℕ → Bytes
pos_text i = pos_prefix ++ format i

abbrev pub name_with : Bytes → ℕ → Bytes
name_with [] pos = pos_text pos
name_with (c ∷ mid) pos = c ∷ mid

abbrev pub name_of : Option (Transceiver × ℕ) → Bytes
name_of none = []
name_of (some (t, pos)) = name_with t.mid pos

-- `getMidFromSender`
unfoldable pub get_mid_from_sender : List Transceiver → ℕ → Bytes
unfolding find_transiver_by_sender
get_mid_from_sender ts sender = name_of (find_transiver_by_sender 0 ts sender)

-- The number that a text names as a position: -1 is no position, and another negative number none of
-- any transceiver.
pub data Position : Type 0 where
  unset never : Position
  at : ℕ → Position

abbrev pub read_digits : Option ℕ → Result Position
read_digits none = panic invalid
read_digits (some n) = ok (at n)

abbrev read_negative : Option ℕ → Result Position
read_negative none = panic invalid
read_negative (some n) =
    if ltb (2 ^ 63) n
    then panic invalid
    else ok (if n == 0 then at 0 else if n == 1 then unset else never)

-- `strconv.Atoi`, whose error is a panic
unfoldable pub atoi : Bytes → Result Position
unfolding parse_uint
atoi [] = panic invalid
atoi (c ∷ s) =
    if c == b'-'
    then read_negative (parse_uint 64 s)
    else if c == b'+'
    then read_digits (parse_uint 63 s)
    else read_digits (parse_uint 63 (c ∷ s))

-- The text after a prefix
abbrev pub after_prefix : Bytes → Bytes → Option Bytes
after_prefix [] s = some s
after_prefix (p ∷ ps) [] = none
after_prefix (p ∷ ps) (c ∷ s) = if c == p then after_prefix ps s else none

abbrev pub position_in : Option Bytes → Result Position
position_in none = ok unset
position_in (some s) = atoi s

-- Whether the transceiver at a place is the one that is named.
abbrev pub is_named : Position → Bytes → ℕ → Transceiver → Bool
is_named unset mid i t = bytes_eq t.mid mid
is_named never mid i t = false
is_named (at pos) mid i t = pos == i

abbrev pub of_stream : String → RemoteTrack → Option RemoteTrack
of_stream sid t = if str_eq t.stream_id sid then some t else none

-- The loop over several tracks of a receiver.
unfoldable pub with_rid : String → String → List RemoteTrack → Option RemoteTrack
with_rid sid rid [] = none
with_rid sid rid (t ∷ ts) =
    let later = with_rid sid rid ts in if str_eq t.rid rid then of_stream sid t else later

-- The track of a receiver. If there is one track only, the rid may be empty.
abbrev pub track_of_receiver : String → String → Option (List RemoteTrack) → Option RemoteTrack
track_of_receiver sid rid none = none
track_of_receiver sid rid (some []) = none
track_of_receiver sid rid (some (t ∷ [])) =
    if not (str_eq rid "")
    then (if str_eq t.rid rid then of_stream sid t else none)
    else of_stream sid t
track_of_receiver sid rid (some (t ∷ u ∷ ts)) = with_rid sid rid (t ∷ u ∷ ts)

abbrev pub Found : Type 0
Found = Option RemoteTrack × Option Transceiver

-- The loop over the transceivers, from the position
unfoldable pub search_remote : Position → String → Bytes → String → ℕ → List Transceiver → Found
unfolding with_rid bytes_eq
search_remote pos sid mid rid i [] = (none, none)
search_remote pos sid mid rid i (t ∷ ts) =
    let later = search_remote pos sid mid rid (suc i) ts in
    if is_named pos mid i t then (track_of_receiver sid rid t.receiver, some t) else later

-- `findTracksRemoteByMidAndRid`
unfoldable pub find_tracks_remote_by_mid_and_rid :
    List Transceiver → String → Bytes → String → Result Found
unfolding atoi search_remote
find_tracks_remote_by_mid_and_rid ts sid mid rid =
    position_in (after_prefix pos_prefix mid) >>= λ pos. ok (search_remote pos sid mid rid 0 ts)
