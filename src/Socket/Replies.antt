-- ===== src/Socket/Replies.antt =====
-- A request crosses to the peer, and the peer's answer reaches the channel that waits for it.
use conference_go.Common.{
  ℕ, ◌^◌, ◌<◌, true, false, [], ◌∷◌, none, some, ◌≡◌, ◌≢◌, ◌↔◌, some_inj, refl, arith, ap, sym, ◌∙◌,
  subst,
}
use conference_go.Maps.Keyed.{find_key, delete_key}
use conference_go.Frames.{
  Bytes, Frame, decoded, is_valid_flag, encode, decode, need_ack, is_ack_normal,
}
use conference_go.Frames.Digits.{IsPlain}
use conference_go.Frames.RoundTrip.{decode-encode}
use conference_go.Socket.{
  Socket, Json, arg, message, answered, id_eq, has_prefix, bytes_eq, custom_prefix, custom_ack_evt,
  on_frame, on_text, ack_text, on_decoded,
}
use conference_go.Socket.Requests.{waits, send_msg, write_text, release, next_id, waiting}

pub id_eq_iff : (a b : ℕ) → (id_eq a b ≡ true) ↔ (a ≡ b)
unfolding id_eq
id_eq_iff a b = (λ e. ground (arith, e), λ e. ground (arith, e))

-- A request that a callback can get.
abbrev pub IsRequest : Bytes → Type 0
IsRequest evt =
    IsPlain evt × (has_prefix evt custom_prefix ≡ false) × (bytes_eq evt custom_ack_evt ≡ false)

module _ {D E : Type 0} (json : Json D E) where
  -- A value that JSON writes and reads back as it was.
  abbrev pub IsFaithful : D → Bytes → Type 0
  IsFaithful d text = (json.marshal d ≡ some text) × (text ≢ []) × (json.unmarshal text ≡ some d)

  module _ {C : Type 0} where
    on_text-frame :
        (f : Frame) (s : Socket C) (text : Bytes)
        → IsPlain f.evt
        → f.msg_id < 2 ^ 64
        → is_valid_flag f.flag ≡ true
        → encode f.evt f.msg_id f.flag (some f.content) ≡ some text
        → on_text json text s ≡ on_frame json f s
    unfolding on_text
    on_text-frame f s text h h64 v e =
        let (t, et, d) = decode-encode f h h64 v in
        ap (λ x. on_decoded json x s) (subst (λ x. decode x ≡ decoded f) (some_inj (sym et ∙ e)) d)

    on_frame-request :
        (evt text : Bytes) (id : ℕ) (d : D) (s : Socket C)
        → IsRequest evt
        → IsFaithful d text
        → s.has_msg_cb ≡ true
        → on_frame json (record { evt = evt; msg_id = id; flag = need_ack; content = text }) s
          ≡ (s, message evt (some id) d ∷ [])
    unfolding on_frame
    on_frame-request evt [] id d s (p, q, r) (m, ne, u) cb = absurd (ne refl)
    on_frame-request evt (c ∷ text) id d s (p, q, r) (m, ne, u) cb = rw (u, q, r, cb) refl

    on_frame-answer :
        (text : Bytes) (id : ℕ) (d : D) (s : Socket C) (ch : C)
        → IsFaithful d text
        → find_key id_eq id s.acks ≡ some ch
        → on_frame json (record { evt = []; msg_id = id; flag = is_ack_normal; content = text }) s
          ≡ (record s { acks = delete_key id_eq id s.acks }, answered ch (arg d) ∷ [])
    unfolding on_frame
    on_frame-answer [] id d s ch (m, ne, u) w = absurd (ne refl)
    on_frame-answer (c ∷ text) id d s ch (m, ne, u) w = rw (u, w) refl

    next_id_below : (s : Socket C) → next_id s < 2 ^ 64
    next_id_below s = omega arith

    send_msg-waits :
        (s : Socket C) (ch : C) (evt content text : Bytes) (d : D)
        → json.marshal d ≡ some content
        → encode evt (next_id s) need_ack (some content) ≡ some text
        → send_msg json true evt (d ∷ []) ch true s ≡ (waiting s ch, waits (next_id s) text)
    unfolding send_msg
    send_msg-waits s ch evt content text d m e =
        ap
          (write_text true (next_id s) true (waiting s ch)
            (release true (next_id s) (waiting s ch)))
          (ap (encode evt (next_id s) need_ack) m ∙ e)

    -- A request on an open connection waits under its number; its text makes the peer call its callback
    -- with the event, the number and the value; the answer's text, whenever it comes while the request
    -- waits, sends the answer's value to the request's channel and ends the wait of that number alone.
    pub request_reply :
        (s peer : Socket C) (ch : C) (evt : Bytes) (d r : D) (d_text r_text : Bytes)
        → IsRequest evt
        → peer.has_msg_cb ≡ true
        → IsFaithful d d_text
        → IsFaithful r r_text
        → (text reply : Bytes) × (send_msg json true evt (d ∷ []) ch true s
            ≡ (waiting s ch, waits (next_id s) text))
          × (on_text json text peer ≡ (peer, message evt (some (next_id s)) d ∷ []))
          × (ack_text json (next_id s) (r ∷ []) none ≡ some reply)
          × ((later : Socket C)
              → find_key id_eq (next_id s) later.acks ≡ some ch
              → on_text json reply later ≡ (
                record later { acks = delete_key id_eq (next_id s) later.acks },
                answered ch (arg r) ∷ [],
              ))
    unfolding ack_text is_valid_flag
    request_reply s peer ch evt d r d_text r_text q cb hd hr =
        let below = next_id_below s in
        let (text, e, _) =
          decode-encode
            (record { evt = evt; msg_id = next_id s; flag = need_ack; content = d_text }) q.0 below
            refl in
        let (reply, e', _) =
          decode-encode
            (record { evt = []; msg_id = next_id s; flag = is_ack_normal; content = r_text }) tt
            below refl in
        (
          text,
          reply,
          send_msg-waits s ch evt d_text text d hd.0 e,
          on_text-frame _ peer text q.0 below refl e
              ∙ on_frame-request evt d_text (next_id s) d peer q hd cb,
          rw (hr.0, e') refl,
          λ later w.
              on_text-frame _ later reply tt below refl e'
              ∙ on_frame-answer r_text (next_id s) r later ch hr w,
        )
