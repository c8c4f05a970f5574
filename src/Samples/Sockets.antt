-- ===== src/Samples/Sockets.antt =====
-- websocket/signal.go: a request over a socket, and its answer.
use conference_go.Common.{
  ℕ, ◌≤◌, ◌==◌, true, false, List, [], ◌∷◌, Option, none, some, ◌≡◌, ◌≢◌, ◌↔◌, refl, arith,
}
use conference_go.Maps.Keyed.{find_key, put_key, delete_key}
use conference_go.Frames.{
  Bytes, Frame, decoded, is_valid_flag, digits, parse_uint, cut, encode, decode,
}
use conference_go.Frames.Digits.{IsPlain}
use conference_go.Frames.RoundTrip.{IsFrame, decode-encode, decode_iff}
use conference_go.Socket.{
  Socket, Json, arg, message, answered, new_socket, id_eq, has_prefix, bytes_eq, on_text, on_frame,
  ack_text,
}
use conference_go.Socket.Requests.{next_id, waiting, waits, send_msg, release}
use conference_go.Socket.Replies.{IsRequest, request_reply}
use conference_go.Socket.Once.{Action, send, arrive, answers, requests, history, answers-history}

abbrev evt : Bytes
evt = b'a' ∷ []

abbrev asked : Frame
asked = record { evt = evt; msg_id = 3; flag = 2; content = b'1' ∷ [] }

abbrev asked_text : Bytes
asked_text = b'a' ∷ b';' ∷ b'3' ∷ b';' ∷ b'2' ∷ b';' ∷ b'1' ∷ []

asked_runs :
    (encode evt 3 2 (some (b'1' ∷ [])) ≡ some asked_text) × (decode asked_text ≡ decoded asked)
unfolding encode decode digits parse_uint cut is_valid_flag
asked_runs = (refl, refl)

evt-IsPlain : IsPlain evt
evt-IsPlain = (λ q. omega (arith, q), tt)

decode-encode_example :
    (text : Bytes) × (encode evt 3 2 (some (b'1' ∷ [])) ≡ some text) × (decode text ≡ decoded asked)
unfolding is_valid_flag
decode-encode_example = decode-encode asked evt-IsPlain (omega arith) refl

decode_iff_example : (decode asked_text ≡ decoded asked) ↔ IsFrame asked_text asked
decode_iff_example = decode_iff asked_text asked

abbrev read_one : Bytes → Option ℕ
read_one [] = none
read_one (c ∷ s) = some c

abbrev small_json : Json ℕ ℕ
small_json = record {
  nil = 0;
  is_nil = λ n. n == 0;
  marshal = λ n. some (n ∷ []);
  unmarshal = read_one;
  marshal_err = λ n. some (n ∷ []);
  err_of = λ n. some n;
}

abbrev client : Socket ℕ
client = new_socket true

abbrev server : Socket ℕ
server = record (new_socket false) { has_msg_cb = true }

evt-IsRequest : IsRequest evt
unfolding has_prefix bytes_eq
evt-IsRequest = (evt-IsPlain, refl, refl)

not_empty : (n : ℕ) → n ∷ [] ≢ []
not_empty n e = cc

request_reply_example :
    (text reply : Bytes) × (send_msg small_json true evt (5 ∷ []) 7 true client
      ≡ (waiting client 7, waits (next_id client) text))
    × (on_text small_json text server ≡ (server, message evt (some (next_id client)) 5 ∷ []))
    × (ack_text small_json (next_id client) (6 ∷ []) none ≡ some reply)
    × ((later : Socket ℕ)
        → find_key id_eq (next_id client) later.acks ≡ some 7
        → on_text small_json reply later ≡ (
          record later { acks = delete_key id_eq (next_id client) later.acks },
          answered 7 (arg 6) ∷ [],
        ))
request_reply_example =
    request_reply small_json client server 7 evt 5 6 (5 ∷ []) (6 ∷ []) evt-IsRequest refl
      (refl, not_empty 5, refl) (refl, not_empty 6, refl)

-- The answer arrives twice.
abbrev twice : List (Action ℕ)
twice =
    send true evt (5 ∷ []) 7 true
    ∷ arrive (b';' ∷ b'3' ∷ b';' ∷ b'0' ∷ b';' ∷ 6 ∷ [])
    ∷ arrive (b';' ∷ b'3' ∷ b';' ∷ b'0' ∷ b';' ∷ 6 ∷ [])
    ∷ []

twice_runs : answers 7 (history small_json client twice) ≡ 1
unfolding history send_msg on_text on_frame encode decode digits parse_uint cut is_valid_flag
    find_key put_key delete_key id_eq release
twice_runs = refl

answers-history_example : answers 7 (history small_json (new_socket true) twice) ≤ requests 7 twice
answers-history_example = answers-history small_json true 7 twice
