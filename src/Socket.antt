-- ===== src/Socket.antt =====
-- websocket/signal.go, `WebSocketSignal`: requests that wait for an answer under their number, the
-- handler of incoming texts, and the answers. JSON and the connection are parameters.
pub mod Requests
pub mod Replies
pub mod Once
use conference_go.Common.{
  ℕ, suc, ◌+◌, ◌%◌, ◌^◌, ◌==◌, ltb, Bool, true, false, ◌&&◌, List, [], ◌∷◌, Option, none, some,
  if◌then◌else◌, ◌≡◌, drop,
}
use conference_go.Maps.Keyed.{KeyMap, find_key, put_key, delete_key}
use conference_go.Frames.{
  Bytes, Frame, Decoded, decoded, bad_format, bad_msg_id, bad_flag, invalid_flag, is_ack,
  is_ack_normal, is_ack_err, need_ack, no_ack, encode, decode,
}

unfoldable pub id_eq : ℕ → ℕ → Bool
id_eq a b = a == b

-- Channels have an identity in `C`, messages are values in `D`, `E` is what a `ConferenceError` holds.
pub record Socket (C : Type 0) : Type 0 where
  pub next_msg_id : ℕ
  pub acks : KeyMap ℕ C
  pub has_msg_cb : Bool
  pub has_custom_cb : Bool
  pub has_custom_ack_cb : Bool

-- The errors that answer a request.
pub data Failure (E : Type 0) : Type 0 where
  undecodable impossible : Failure E
  from_peer : E → Failure E

-- `ackArgs`
pub data AckArgs (D E : Type 0) : Type 0 where
  arg : D → AckArgs D E
  failed : Failure E → AckArgs D E

-- `encoding/json` and the decoding of errors.
pub record Json (D E : Type 0) : Type 0 where
  pub nil : D
  pub is_nil : D → Bool
  pub marshal : D → Option Bytes
  pub unmarshal : Bytes → Option D
  pub marshal_err : E → Option Bytes
  pub err_of : D → Option E

-- What the handler of a text does besides its work on the state.
pub data Effect (C D E : Type 0) : Type 0 where
  logged called_nil : Effect C D E
  answered : C → AckArgs D E → Effect C D E
  custom : Bytes → D → Effect C D E
  custom_ack : D → Effect C D E
  message : Bytes → Option ℕ → D → Effect C D E

-- `NewWebSocketSignal`: a client's numbers are odd, a server's even.
abbrev pub new_socket : {C : Type 0} → Bool → Socket C
new_socket is_client = record {
  next_msg_id = if is_client then 1 else 0;
  acks = [];
  has_msg_cb = false;
  has_custom_cb = false;
  has_custom_ack_cb = false;
}

unfoldable pub bytes_eq : Bytes → Bytes → Bool
bytes_eq [] [] = true
bytes_eq [] (c ∷ t) = false
bytes_eq (c ∷ s) [] = false
bytes_eq (c ∷ s) (d ∷ t) = (c == d) && bytes_eq s t

unfoldable pub has_prefix : Bytes → Bytes → Bool
has_prefix s [] = true
has_prefix [] (c ∷ t) = false
has_prefix (d ∷ s) (c ∷ t) = (d == c) && has_prefix s t

-- "custom:" and "custom-ack"
abbrev pub custom_prefix : Bytes
custom_prefix = b'c' ∷ b'u' ∷ b's' ∷ b't' ∷ b'o' ∷ b'm' ∷ b':' ∷ []

abbrev pub custom_ack_evt : Bytes
custom_ack_evt = b'c' ∷ b'u' ∷ b's' ∷ b't' ∷ b'o' ∷ b'm' ∷ b'-' ∷ b'a' ∷ b'c' ∷ b'k' ∷ []

module _ {D E : Type 0} (json : Json D E) where
  -- The data of an answer that is an error.
  abbrev err_answer : D → Option E → D × Option (Failure E)
  err_answer d none = (d, some undecodable)
  err_answer d (some e) = (d, some (from_peer e))

  abbrev parsed : ℕ → Option D → D × Option (Failure E)
  parsed flag none = (json.nil, some undecodable)
  parsed flag (some d) = if flag == is_ack_err then err_answer d (json.err_of d) else (d, none)

  -- The data and the error of a text.
  abbrev parse_content : ℕ → Bytes → D × Option (Failure E)
  parse_content flag [] = (json.nil, none)
  parse_content flag (c ∷ s) = parsed flag (json.unmarshal (c ∷ s))

  abbrev first_arg : List D → D
  first_arg [] = json.nil
  first_arg (d ∷ ds) = d

  -- `ack_fun`: the text of the answer, none if it cannot be encoded
  unfoldable pub ack_text : ℕ → List D → Option E → Option Bytes
  unfolding encode
  ack_text msg_id args none = encode [] msg_id is_ack_normal (json.marshal (first_arg args))
  ack_text msg_id args (some e) = encode [] msg_id is_ack_err (json.marshal_err e)

  -- What is sent to a request that waits.
  abbrev answer : ℕ → D × Option (Failure E) → AckArgs D E
  answer flag (d, some e) = failed e
  answer flag (d, none) = if flag == is_ack_err then failed impossible else arg d

  module _ {C : Type 0} where
    abbrev unasked : Option (Failure E) → List (Effect C D E)
    unasked none = []
    unasked (some e) = logged ∷ []

    abbrev on_ack :
        Frame → D × Option (Failure E) → Socket C → Option C → Socket C × List (Effect C D E)
    on_ack f p s none = (s, unasked p.1)
    on_ack f p s (some ch) =
        (record s { acks = delete_key id_eq f.msg_id s.acks }, answered ch (answer f.flag p) ∷ [])

    -- A text that is not an answer; what could not be decoded reaches the callback as nil.
    abbrev on_request : Frame → D → Socket C → List (Effect C D E)
    on_request f d s =
        if has_prefix f.evt custom_prefix
        then (if s.has_custom_cb then custom (drop 7 f.evt) d ∷ [] else called_nil ∷ [])
        else if bytes_eq f.evt custom_ack_evt
        then (if s.has_custom_ack_cb then custom_ack d ∷ [] else called_nil ∷ [])
        else if s.has_msg_cb
        then message f.evt (if f.flag == need_ack then some f.msg_id else none) d ∷ []
        else []

    unfoldable pub on_frame : Frame → Socket C → Socket C × List (Effect C D E)
    unfolding find_key delete_key id_eq has_prefix bytes_eq
    on_frame f s =
        let p = parse_content f.flag f.content in
        if is_ack f.flag
        then on_ack f p s (find_key id_eq f.msg_id s.acks)
        else (s, on_request f p.0 s)

    abbrev on_decoded : Decoded → Socket C → Socket C × List (Effect C D E)
    on_decoded (decoded f) s = on_frame f s
    on_decoded bad_format s = (s, logged ∷ [])
    on_decoded bad_msg_id s = (s, logged ∷ [])
    on_decoded bad_flag s = (s, logged ∷ [])
    on_decoded (invalid_flag flag) s = (s, logged ∷ [])

    -- `msg_handler`, on a text message
    unfoldable pub on_text : Bytes → Socket C → Socket C × List (Effect C D E)
    unfolding decode on_frame
    on_text text s = on_decoded (decode text) s
