-- ===== src/Socket/Requests.antt =====
-- websocket/signal.go, `SendMsg`: up to its wait, and what ends the wait.
use conference_go.Common.{
  ℕ, ◌+◌, ◌%◌, ◌^◌, Bool, true, List, [], ◌∷◌, Option, none, some, if◌then◌else◌,
}
use conference_go.Maps.Keyed.{put_key, delete_key}
use conference_go.Frames.{Bytes, need_ack, no_ack, encode}
use conference_go.Socket.{Socket, Json, Failure, AckArgs, arg, failed, id_eq}

-- How far `SendMsg` comes before it waits.
pub data Sent : Type 0 where
  too_many not_encoded not_written : Sent
  done : Bytes → Sent
  waits : ℕ → Bytes → Sent

-- What ends the wait.
pub data Wake (D E : Type 0) : Type 0 where
  socket_closed cancelled : Wake D E
  got : AckArgs D E → Wake D E

pub data Reply (D E : Type 0) : Type 0 where
  was_closed was_cancelled : Reply D E
  replied : List D → Reply D E
  refused : Failure E → Reply D E

module _ {C : Type 0} where
  -- The number of the next request: `next_msg_id.Add(2)`, in 64 bits.
  abbrev pub next_id : Socket C → ℕ
  next_id s = (s.next_msg_id + 2) % 2 ^ 64

  -- The socket while its next request waits on the channel.
  abbrev pub waiting : Socket C → C → Socket C
  waiting s ch = record s { next_msg_id = next_id s; acks = put_key id_eq (next_id s) ch s.acks }

  -- The request is entered in `acks` before its text is written.
  abbrev pub register : Bool → ℕ → C → Socket C → Socket C
  register ack msg_id ch s = if ack then record s { acks = put_key id_eq msg_id ch s.acks } else s

  -- `release`
  unfoldable pub release : Bool → ℕ → Socket C → Socket C
  unfolding delete_key id_eq
  release ack msg_id s = if ack then record s { acks = delete_key id_eq msg_id s.acks } else s

  abbrev pub write_text : Bool → ℕ → Bool → Socket C → Socket C → Option Bytes → Socket C × Sent
  write_text ack msg_id written s released none = (released, not_encoded)
  write_text ack msg_id written s released (some text) =
      if written then (s, if ack then waits msg_id text else done text) else (released, not_written)

module _ {D E : Type 0} (json : Json D E) where
  abbrev pub result_of : AckArgs D E → Reply D E
  result_of (failed e) = refused e
  result_of (arg d) = if json.is_nil d then replied [] else replied (d ∷ [])

  module _ {C : Type 0} where
    abbrev pub send_first : Bool → Bytes → D → C → Bool → Socket C → Socket C × Sent
    send_first ack evt d ch written s =
        let msg_id = next_id s in
        let s' = register ack msg_id ch (record s { next_msg_id = msg_id }) in
        write_text ack msg_id written s' (release ack msg_id s')
          (encode evt msg_id (if ack then need_ack else no_ack) (json.marshal d))

    -- `SendMsg` up to its wait, on an open connection whose write succeeds or not
    unfoldable pub send_msg : Bool → Bytes → List D → C → Bool → Socket C → Socket C × Sent
    unfolding encode release put_key id_eq
    send_msg ack evt [] ch written s = send_first ack evt json.nil ch written s
    send_msg ack evt (d ∷ []) ch written s = send_first ack evt d ch written s
    send_msg ack evt (d ∷ d' ∷ ds) ch written s = (s, too_many)

    -- The `select` of `SendMsg`
    unfoldable pub await_ack : ℕ → Wake D E → Socket C → Socket C × Reply D E
    unfolding release
    await_ack msg_id socket_closed s = (s, was_closed)
    await_ack msg_id cancelled s = (release true msg_id s, was_cancelled)
    await_ack msg_id (got args) s = (s, result_of args)
