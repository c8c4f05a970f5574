-- ===== src/Socket/Once.antt =====
-- A channel is answered at most as often as it was registered with a request.
use native.Mathlib.Nat.{le_trans}
use conference_go.Common.{
  ℕ, ◌+◌, ◌≤◌, ◌==◌, Bool, true, false, List, [], ◌∷◌, ◌++◌, Option, none, some, if◌then◌else◌, ◌≡◌,
  refl, arith, inl, inr, Bool-cases, some_inj,
}
use conference_go.Maps.Keyed.{KeyMap, find_key, put_key, delete_key}
use conference_go.Frames.{
  Bytes, Frame, Decoded, decoded, bad_format, bad_msg_id, bad_flag, invalid_flag, decode, is_ack,
}
use conference_go.Socket.{
  Socket, Json, Failure, Effect, logged, called_nil, answered, custom, custom_ack, message, id_eq,
  on_frame, on_text, on_decoded, on_ack, on_request, parse_content, new_socket, has_prefix,
  bytes_eq, custom_prefix, custom_ack_evt,
}
use conference_go.Socket.Requests.{send_msg, release, send_first, write_text, register, next_id}

-- One if the two channels are the same.
abbrev is_one : ℕ → ℕ → ℕ
is_one a b = if a == b then 1 else 0

abbrev holders : ℕ → KeyMap ℕ ℕ → ℕ
holders ch [] = 0
holders ch ((id, c) ∷ m) = is_one c ch + holders ch m

holders-delete_key :
    (ch id : ℕ) (m : KeyMap ℕ ℕ) → holders ch (delete_key id_eq id m) ≤ holders ch m
unfolding delete_key id_eq
holders-delete_key ch id [] = omega arith
holders-delete_key ch id ((k, c) ∷ m) = ground (arith, holders-delete_key ch id m)

holders-find_key :
    (ch id c : ℕ) (m : KeyMap ℕ ℕ)
    → find_key id_eq id m ≡ some c
    → is_one c ch + holders ch (delete_key id_eq id m) ≤ holders ch m
unfolding find_key delete_key id_eq
holders-find_key ch id c [] e = cc
holders-find_key ch id c ((k, c') ∷ m) e = elim (Bool-cases (k == id)) [
  | inl q ↦ rw (q, some_inj (rw q at e)) (ground (arith, holders-delete_key ch id m))
  | inr q ↦ rw q (ground (arith, holders-find_key ch id c m (rw q at e)))
]

holders-put_key :
    (ch id c : ℕ) (m : KeyMap ℕ ℕ) → holders ch (put_key id_eq id c m) ≤ is_one c ch + holders ch m
unfolding put_key id_eq
holders-put_key ch id c [] = omega arith
holders-put_key ch id c ((k, c') ∷ m) = ground (arith, holders-put_key ch id c m)

module _ {D E : Type 0} where
  -- How often a channel is answered.
  abbrev pub answers : ℕ → List (Effect ℕ D E) → ℕ
  answers ch [] = 0
  answers ch (answered c args ∷ es) = is_one c ch + answers ch es
  answers ch (logged ∷ es) = answers ch es
  answers ch (called_nil ∷ es) = answers ch es
  answers ch (custom evt d ∷ es) = answers ch es
  answers ch (custom_ack d ∷ es) = answers ch es
  answers ch (message evt id d ∷ es) = answers ch es

  answers-append :
      (ch : ℕ) (es fs : List (Effect ℕ D E)) → answers ch (es ++ fs) ≡ answers ch es + answers ch fs
  answers-append ch [] fs = omega arith
  answers-append ch (answered c args ∷ es) fs = omega (arith, answers-append ch es fs)
  answers-append ch (logged ∷ es) fs = answers-append ch es fs
  answers-append ch (called_nil ∷ es) fs = answers-append ch es fs
  answers-append ch (custom evt d ∷ es) fs = answers-append ch es fs
  answers-append ch (custom_ack d ∷ es) fs = answers-append ch es fs
  answers-append ch (message evt id d ∷ es) fs = answers-append ch es fs

  -- Answers given and still to come.
  abbrev owed : ℕ → Socket ℕ × List (Effect ℕ D E) → ℕ
  owed ch (s, es) = answers ch es + holders ch s.acks

module _ {D E : Type 0} (json : Json D E) (ch : ℕ) where
  on_ack-owed :
      (f : Frame) (p : D × Option (Failure E)) (s : Socket ℕ) (o : Option ℕ)
      → find_key id_eq f.msg_id s.acks ≡ o
      → owed ch (on_ack json f p s o) ≤ holders ch s.acks
  on_ack-owed f (d, none) s none e = omega arith
  on_ack-owed f (d, some x) s none e = omega arith
  on_ack-owed f p s (some c) e = omega (arith, holders-find_key ch f.msg_id c s.acks e)

  on_request-owed :
      (f : Frame) (d : D) (s : Socket ℕ) → owed ch (s, on_request json f d s) ≤ holders ch s.acks
  on_request-owed f d s = elim (Bool-cases (has_prefix f.evt custom_prefix)) [
    | inl a ↦ rw a (elim (Bool-cases s.has_custom_cb) [
      | inl b ↦ rw b (omega arith)
      | inr b ↦ rw b (omega arith)
    ])
    | inr a ↦ rw a (elim (Bool-cases (bytes_eq f.evt custom_ack_evt)) [
      | inl b ↦ rw b (elim (Bool-cases s.has_custom_ack_cb) [
        | inl c ↦ rw c (omega arith)
        | inr c ↦ rw c (omega arith)
      ])
      | inr b ↦ rw b (elim (Bool-cases s.has_msg_cb) [
        | inl c ↦ rw c (omega arith)
        | inr c ↦ rw c (omega arith)
      ])
    ])
  ]

  on_frame-owed : (f : Frame) (s : Socket ℕ) → owed ch (on_frame json f s) ≤ holders ch s.acks
  unfolding on_frame
  on_frame-owed f s = elim (Bool-cases (is_ack f.flag)) [
    | inl k ↦ rw k (on_ack-owed f (parse_content json f.flag f.content) s _ refl)
    | inr k ↦ rw k (on_request-owed f (parse_content json f.flag f.content).0 s)
  ]

  on_decoded-owed : (o : Decoded) (s : Socket ℕ) → owed ch (on_decoded json o s) ≤ holders ch s.acks
  on_decoded-owed (decoded f) s = on_frame-owed f s
  on_decoded-owed bad_format s = omega arith
  on_decoded-owed bad_msg_id s = omega arith
  on_decoded-owed bad_flag s = omega arith
  on_decoded-owed (invalid_flag flag) s = omega arith

  release-owed :
      (ack : Bool) (id : ℕ) (s : Socket ℕ) → holders ch (release ack id s).acks ≤ holders ch s.acks
  unfolding release
  release-owed true id s = holders-delete_key ch id s.acks
  release-owed false id s = omega arith

  register-owed :
      (ack : Bool) (id c : ℕ) (s : Socket ℕ)
      → holders ch (register ack id c s).acks ≤ is_one c ch + holders ch s.acks
  register-owed true id c s = holders-put_key ch id c s.acks
  register-owed false id c s = omega arith

  write_text-owed :
      (n : ℕ) (ack : Bool) (id : ℕ) (written : Bool) (s r : Socket ℕ) (o : Option Bytes)
      → holders ch s.acks ≤ n
      → holders ch r.acks ≤ n
      → holders ch (write_text ack id written s r o).0.acks ≤ n
  write_text-owed n ack id written s r none h h' = h'
  write_text-owed n ack id true s r (some text) h h' = h
  write_text-owed n ack id false s r (some text) h h' = h'

  send_first-owed :
      (ack : Bool) (evt : Bytes) (d : D) (c : ℕ) (written : Bool) (s : Socket ℕ)
      → holders ch (send_first json ack evt d c written s).0.acks ≤ is_one c ch + holders ch s.acks
  send_first-owed ack evt d c written s =
      let h = register-owed ack (next_id s) c (record s { next_msg_id = next_id s }) in
      write_text-owed _ ack (next_id s) written _ _ _ h
        (le_trans (release-owed ack (next_id s) _) h)

  send_msg-owed :
      (ack : Bool) (evt : Bytes) (ds : List D) (c : ℕ) (written : Bool) (s : Socket ℕ)
      → holders ch (send_msg json ack evt ds c written s).0.acks ≤ is_one c ch + holders ch s.acks
  unfolding send_msg
  send_msg-owed ack evt [] c written s = send_first-owed ack evt json.nil c written s
  send_msg-owed ack evt (d ∷ []) c written s = send_first-owed ack evt d c written s
  send_msg-owed ack evt (d ∷ d' ∷ ds) c written s = omega arith

-- What happens to a socket: a request with a fresh or used channel, a text that arrives, a request that
-- is given up.
pub data Action (D : Type 0) : Type 0 where
  send : Bool → Bytes → List D → ℕ → Bool → Action D
  arrive : Bytes → Action D
  give_up : ℕ → Action D

-- How often requests were made with a channel.
abbrev pub requests : {D : Type 0} → ℕ → List (Action D) → ℕ
requests ch [] = 0
requests ch (send ack evt ds c written ∷ l) = is_one c ch + requests ch l
requests ch (arrive text ∷ l) = requests ch l
requests ch (give_up id ∷ l) = requests ch l

module _ {D E : Type 0} (json : Json D E) where
  unfoldable pub history : Socket ℕ → List (Action D) → List (Effect ℕ D E)
  unfolding send_msg on_text release
  history s [] = []
  history s (send ack evt ds c written ∷ l) = history (send_msg json ack evt ds c written s).0 l
  history s (arrive text ∷ l) = (on_text json text s).1 ++ history (on_text json text s).0 l
  history s (give_up id ∷ l) = history (release true id s) l

  history-owed :
      (ch : ℕ) (s : Socket ℕ) (l : List (Action D))
      → answers ch (history s l) ≤ requests ch l + holders ch s.acks
  unfolding history on_text
  history-owed ch s [] = omega arith
  history-owed ch s (send ack evt ds c written ∷ l) = omega (
    arith,
    history-owed ch (send_msg json ack evt ds c written s).0 l,
    send_msg-owed json ch ack evt ds c written s,
  )
  history-owed ch s (arrive text ∷ l) = omega (
    arith,
    history-owed ch (on_text json text s).0 l,
    on_decoded-owed json ch (decode text) s,
    answers-append ch (on_text json text s).1 (history (on_text json text s).0 l),
  )
  history-owed ch s (give_up id ∷ l) =
      omega (arith, history-owed ch (release true id s) l, release-owed json ch true id s)

  -- Whatever is sent, arrives and is given up, in any order, a channel gets at most as many answers as
  -- requests were made with it.
  pub answers-history :
      (is_client : Bool) (ch : ℕ) (l : List (Action D))
      → answers ch (history (new_socket is_client) l) ≤ requests ch l
  answers-history is_client ch l = omega (arith, history-owed ch (new_socket is_client) l)
