-- ===== src/Router/Relay.antt =====
-- A packet of a track goes from the node that publishes it to the accepter of a node that subscribed.
use mathlib.Core.List.Memᴰ
use conference_go.Common.{
  ℕ, ◌≤◌, ◌<◌, ltb, leb, String, Bool, true, false, not, List, [], ◌∷◌, Option, none, some,
  if◌then◌else◌, ok, panic, ◌>>=◌, index, length, ◌≡◌, refl, arith, ap, sym, ◌∙◌, subst, ◌⊎◌, inl,
  inr, Bool-cases, Memᴰ, ok_inj,
}
use conference_go.Maps.{AssocMap, lookup, insert}
use conference_go.Frames.{Bytes}
use conference_go.Packets.{
  extract_packet, Packet, Made, made, bad_uuid, too_big, not_marshalled, data_packet, eof_packet,
  is_setup_ark, packet_max_size, packet_content, new_data_packet, new_eof_packet, is_data_packet,
  is_eof_packet,
}
use conference_go.Packets.Buffers.{length-take}
use conference_go.Packets.Tracks.{
  packet_content-ok, packet_content-panic, new_data_packet-Reads, new_eof_packet-Reads,
}
use conference_go.Router.{
  address_first, Accepter, Router, Outcome, written, ended, closed_accepter, consume_packet, routed,
  transports_of, addresses, route, receive, write_rtp, close,
}

addresses_mem :
    (addr_map : AssocMap String) (ts : AssocMap ℕ) (t addr : String) (v : ℕ)
    → Memᴰ (t, v) ts
    → lookup t addr_map ≡ some addr
    → Memᴰ addr (addresses addr_map ts)
unfolding addresses
addresses_mem addr_map [] t addr v m e = absurd (Memᴰ.not-nil m)
addresses_mem addr_map ((t', v') ∷ ts) t addr v m e = elim (Memᴰ.cases_cons m) [
  | inl k ↦
      let q = subst (λ (p : String × ℕ). lookup p.0 addr_map ≡ some addr) k e in
      subst (λ o. Memᴰ addr (address_first o (addresses addr_map ts))) (sym q) (Memᴰ.head refl)
  | inr k ↦ later (lookup t' addr_map) (addresses_mem addr_map ts t addr v k e)
]
  where
    later : (o : Option String) → {l : List String} → Memᴰ addr l → Memᴰ addr (address_first o l)
    later none d = d
    later (some a) d = Memᴰ.tail d

leb-true : (a b : ℕ) → a ≤ b → leb a b ≡ true
leb-true a b h = ground (arith, h)

pub ltb-true : (a b : ℕ) → a < b → ltb a b ≡ true
ltb-true a b h = ground (arith, h)

length-packet_content :
    (p : Packet) (b : Bytes) → packet_content p ≡ ok b → (p.n ≤ length p.bytes) × (length b ≡ p.n)
length-packet_content p b e = elim (Bool-cases (leb p.n (length p.bytes))) [
  | inl k ↦
      let q = packet_content-ok p (ground (arith, k)) in
      (
        ground (arith, k),
        subst (λ l. length l ≡ p.n) (ok_inj (sym q ∙ e))
            (length-take p.n p.bytes (ground (arith, k))),
      )
  | inr k ↦ absurd (not-ok (sym (packet_content-panic p (ground (arith, k))) ∙ e))
]
  where
    not-ok : {x : Bytes} → panic index ≡ ok x → ⊥
    not-ok e = cc

length-is_data_packet : (b : Bytes) → is_data_packet b ≡ true → 20 < length b
unfolding is_data_packet
length-is_data_packet b e = ground (arith, e)

-- A packet that is made is a packet of the track.
abbrev IsOf : String → Made → Type 0
IsOf track_id (made q) = q.track_id ≡ track_id
IsOf track_id bad_uuid = Unit
IsOf track_id too_big = Unit
IsOf track_id not_marshalled = Unit

module _ (parse : String → Option Bytes) (print : Bytes → String) (track_id : String)
    (p : Packet) where
  data_packet-IsOf :
      (size : ℕ) (raw : Bytes) (o : Option Bytes)
      → IsOf track_id (data_packet parse print track_id size (some raw) p o)
  data_packet-IsOf size raw none = tt
  data_packet-IsOf size raw (some id) = elim (Bool-cases (ltb 1580 size)) [
    | inl k ↦ rw k tt
    | inr k ↦ rw k refl
  ]

  eof_packet-IsOf : (o : Option Bytes) → IsOf track_id (eof_packet parse print track_id p o)
  eof_packet-IsOf none = tt
  eof_packet-IsOf (some id) = refl

outcome :
    (c : Bool) (raw : Bytes)
    → (if not c then written raw else closed_accepter)
      ≡ (if c then closed_accepter else written raw)
outcome true raw = refl
outcome false raw = refl

is_setup_ark-is_eof_packet : (b : Bytes) → is_eof_packet b ≡ true → is_setup_ark b ≡ false
unfolding is_eof_packet is_setup_ark
is_setup_ark-is_eof_packet b e = ground (arith, e)

-- What a node does with the bytes of a data packet.
pub receive-data :
    (parse : String → Option Bytes) (print : Bytes → String) (there : Router) (a : Accepter)
    (track_id : String) (id b raw : Bytes)
    → is_data_packet b ≡ true
    → extract_packet parse print b ≡ ok (print id, raw)
    → print id ≡ track_id
    → lookup track_id there.track2accepters ≡ some a
    → receive parse print b there
      ≡ ok (there, if a.closed then closed_accepter else written raw, false)
unfolding receive write_rtp
receive-data parse print there a track_id id b raw d x same accepted =
    rw (d, x, same, accepted) (ap (λ o. ok (there, o, false)) (outcome a.closed raw))

-- What the node sends for a packet goes to that address too.
abbrev pub IsSent : Router → String → Packet → Bytes → Type 0
IsSent here addr q b =
    (here' : Router) × (addrs : List String) × (o : Outcome) × (route q here
      ≡ ok (here', addrs, b, o))
    × Memᴰ addr addrs

module _ (parse : String → Option Bytes) (print : Bytes → String) (track_id : String) (id : Bytes)
    (known : parse track_id ≡ some id) (same : print id ≡ track_id) (h : length id ≡ 16)
    (here there : Router) (ts : AssocMap ℕ) (t addr : String) (v : ℕ) (a : Accepter)
    (published : lookup track_id here.track2transports ≡ some ts) (to_there : Memᴰ (t, v) ts)
    (known_addr : lookup t here.addr_map ≡ some addr)
    (accepted : lookup track_id there.track2accepters ≡ some a) (pool : Packet)
    (full : length pool.bytes ≡ packet_max_size) where
  consume_packet-ok :
      (q : Packet) (b : Bytes)
      → packet_content q ≡ ok b
      → (is_data_packet b ≡ true) ⊎ (is_eof_packet b ≡ true)
      → (x : Router × Outcome) × (consume_packet q b here ≡ ok x)
  unfolding consume_packet
  consume_packet-ok q b c (inl d) = elim (Bool-cases (is_eof_packet b)) [
    | inl k ↦ rw k (_, refl)
    | inr k ↦
        let (le, l) = length-packet_content q b c in
        let big = length-is_data_packet b d in
        rw (k, leb-true 20 q.n (omega (arith, l, big)), leb-true q.n (length q.bytes) le) (_, refl)
  ]
  consume_packet-ok q b c (inr k) = rw k (_, refl)

  pub route-IsSent :
      (q : Packet) (b : Bytes)
      → q.track_id ≡ track_id
      → packet_content q ≡ ok b
      → (is_data_packet b ≡ true) ⊎ (is_eof_packet b ≡ true)
      → IsSent here addr q b
  unfolding route
  route-IsSent q b e c d =
      let (x, k) = consume_packet-ok q b c d in
      let addrs : List String =
        addresses here.addr_map (transports_of (lookup q.track_id here.track2transports)) in
      (
        x.0,
        addrs,
        x.1,
        ap (λ m. m >>= λ b'. routed addrs b' (consume_packet q b' here)) c ∙ ap (routed addrs b) k,
        subst (λ o. Memᴰ addr (addresses here.addr_map (transports_of o)))
            (sym (ap (λ i. lookup i here.track2transports) e ∙ published))
            (addresses_mem here.addr_map ts t addr v to_there known_addr),
      )

  -- An RTP packet of 1 to 1580 bytes, put into a packet of a published track, is sent to the transport's
  -- address; the node there writes exactly these bytes to its accepter of the track, if that is open.
  pub route-receive :
      (raw : Bytes)
      → 0 < length raw
      → length raw ≤ 1580
      → (q : Packet) × (b : Bytes) × (new_data_packet parse print track_id
            (length raw)
            (some raw)
            pool
          ≡ made q)
        × IsSent here addr q b
        × (receive parse print b there
            ≡ ok (there, if a.closed then closed_accepter else written raw, false))
  unfolding new_data_packet
  route-receive raw pos fits =
      let (q, e, (b, c, d, _, x)) =
        new_data_packet-Reads parse print track_id id pool full known h raw fits in
      let d' = d ∙ ltb-true 0 (length raw) pos in
      (
        q,
        b,
        e,
        route-IsSent q b
            (subst (IsOf track_id) e
              (data_packet-IsOf parse print track_id pool (length raw) raw (parse track_id)))
            c (inl d'),
        receive-data parse print there a track_id id b raw d' x same accepted,
      )

  -- The packet that ends a published track is sent to the transport's address; the node there closes its
  -- accepter of the track and unbinds all its subscriptions.
  pub route-receive_eof :
      (q : Packet) × (b : Bytes) × (new_eof_packet parse print track_id pool ≡ made q)
      × IsSent here addr q b
      × (receive parse print b there
          ≡ ok (
            record there {
              track2accepters =
                  insert track_id
                    (record { closed = true; subs = []; ref_count = 0 })
                    there.track2accepters;
            },
            ended a.subs,
            false,
          ))
  unfolding receive close new_eof_packet
  route-receive_eof =
      let (q, e, (b, c, d, n, x)) =
        new_eof_packet-Reads parse print track_id id pool full known h in
      (
        q,
        b,
        e,
        route-IsSent q b
            (subst (IsOf track_id) e (eof_packet-IsOf parse print track_id pool (parse track_id))) c
            (inr n),
        rw (d, is_setup_ark-is_eof_packet b n, n, x, same, accepted) refl,
      )
