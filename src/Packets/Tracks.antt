-- ===== src/Packets/Tracks.antt =====
-- The packets of a track: what one node makes, the other takes apart.
use conference_go.Common.{
  ◌+◌, ◌-◌, ◌==◌, ◌≤◌, ◌<◌, ltb, leb, String, Bool, true, false, ◌&&◌, [], ◌∷◌, Option, some,
  if◌then◌else◌, ok, panic, index, length, take, drop, ◌≡◌, refl, arith, ap, ◌∙◌, subst, ◌⊎◌, inl,
  inr, Bool-cases,
}
use conference_go.Frames.{Bytes}
use conference_go.Socket.{bytes_eq}
use conference_go.Packets.{
  magic_packet, magic_eof, packet_max_size, copy_at, Packet, made, with_header, new_eof_packet,
  new_data_packet, new_packet_from_buf, extract_packet, is_data_packet, is_eof_packet,
  packet_content, eof_packet, data_packet, buf_packet,
}
use conference_go.Packets.Buffers.{
  bytes_eq_iff, length-copy_at, window, window-copy_at, window-behind, window-before, window-take,
  length-take, drop-take,
}

-- The bytes are a header with these magic bytes and this id, and then the payload.
abbrev IsWritten : Bytes → Bytes → Bytes → Bytes → Type 0
IsWritten magic id raw b =
    (length b ≡ length raw + 20) × (take 4 b ≡ magic) × (window 4 16 b ≡ id) × (drop 20 b ≡ raw)

bytes_eq_refl : (a : Bytes) → bytes_eq a a ≡ true
bytes_eq_refl a = (bytes_eq_iff a a).1 refl

module _ (magic id raw b : Bytes) (w : IsWritten magic id raw b) where
  is_data_packet-IsWritten : is_data_packet b ≡ (ltb 0 (length raw) && bytes_eq magic magic_packet)
  unfolding is_data_packet
  is_data_packet-IsWritten = rw (w.1, w.0) (ground arith)

  is_eof_packet-IsWritten : is_eof_packet b ≡ ((length raw == 0) && bytes_eq magic magic_eof)
  unfolding is_eof_packet
  is_eof_packet-IsWritten = rw (w.1, w.0) (ground arith)

  rest-IsWritten : (c : Bool) → c ≡ ltb 20 (length raw + 20) → (if c then raw else []) ≡ raw
  rest-IsWritten true e = refl
  rest-IsWritten false e = empty raw (ground (arith, e))
    where
      empty : (l : Bytes) → length l ≡ 0 → [] ≡ l
      empty [] e = refl
      empty (c ∷ l) e = absurd (omega (arith, e))

  extract_packet-IsWritten :
      (parse : String → Option Bytes) (print : Bytes → String)
      → extract_packet parse print b ≡ ok (print id, raw)
  unfolding extract_packet
  extract_packet-IsWritten parse print = elim (Bool-cases (leb 20 (length b))) [
    | inl k ↦ rw (k, w.2, w.3, w.0) (ap (λ r. ok (print id, r)) (rest-IsWritten _ refl))
    | inr k ↦ absurd (ground (arith, k, w.0))
  ]

-- The bytes with the header are written, whether the payload is written before it or after it.
module _ (magic id raw b : Bytes) (size : length raw + 20 ≤ length b) (m : length magic ≡ 4)
    (h : length id ≡ 16) where
  IsWritten-header :
      (b : Bytes)
      → 20 ≤ length b
      → (window 0 4 (with_header magic id b) ≡ magic) × (window 4 16 (with_header magic id b) ≡ id)
  IsWritten-header b le = (
    window-before 0 4 4 id (copy_at 0 magic b) (omega arith)
        ∙ subst (λ k. window 0 k (copy_at 0 magic b) ≡ magic) m
            (window-copy_at 0 magic b (omega (arith, m, le))),
    subst (λ k. window 4 k (with_header magic id b) ≡ id) h
        (window-copy_at 4 id (copy_at 0 magic b) (omega (arith, h, le, length-copy_at 0 magic b))),
  )

  IsWritten-take :
      (full : Bytes)
      → length raw + 20 ≤ length full
      → window 0 4 full ≡ magic
      → window 4 16 full ≡ id
      → window 20 (length raw) full ≡ raw
      → IsWritten magic id raw (take (length raw + 20) full)
  IsWritten-take full le a b c = (
    length-take (length raw + 20) full le,
    window-take 0 4 (length raw + 20) full (omega arith) ∙ a,
    window-take 4 16 (length raw + 20) full (omega arith) ∙ b,
    drop-take 20 (length raw) (length raw + 20) full refl ∙ c,
  )

  IsWritten-last :
      IsWritten magic id raw (take (length raw + 20) (with_header magic id (copy_at 20 raw b)))
  IsWritten-last =
      let l = length-copy_at 20 raw b in
      let l' = length-copy_at 0 magic (copy_at 20 raw b) in
      let l'' = length-copy_at 4 id (copy_at 0 magic (copy_at 20 raw b)) in
      let hd = IsWritten-header (copy_at 20 raw b) (omega (arith, l, size)) in
      IsWritten-take _ (omega (arith, l, l', l'', size)) hd.0 hd.1 (
        window-behind 20 (length raw) 4 id (copy_at 0 magic (copy_at 20 raw b)) (omega (arith, h))
        ∙ window-behind 20 (length raw) 0 magic (copy_at 20 raw b) (omega (arith, m))
        ∙ window-copy_at 20 raw b (omega (arith, size)))

  IsWritten-first :
      IsWritten magic id raw (take (length raw + 20) (copy_at 20 raw (with_header magic id b)))
  IsWritten-first =
      let l = length-copy_at 0 magic b in
      let l' = length-copy_at 4 id (copy_at 0 magic b) in
      let l'' = length-copy_at 20 raw (with_header magic id b) in
      let hd = IsWritten-header b (omega (arith, size)) in
      IsWritten-take _ (omega (arith, l, l', l'', size))
        (window-before 0 4 20 raw (with_header magic id b) (omega arith) ∙ hd.0)
        (window-before 4 16 20 raw (with_header magic id b) (omega arith) ∙ hd.1)
        (window-copy_at 20 raw (with_header magic id b) (omega (arith, l, l', size)))

pub packet_content-ok :
    (p : Packet) → p.n ≤ length p.bytes → packet_content p ≡ ok (take p.n p.bytes)
packet_content-ok p h =
    rw (ap (λ k. take k p.bytes) {x = p.n - 0} {y = p.n} (omega arith)) (ground (arith, h))

pub packet_content-panic : (p : Packet) → length p.bytes < p.n → packet_content p ≡ panic index
packet_content-panic p h = ground (arith, h)

module _ (parse : String → Option Bytes) (print : Bytes → String) where
  -- The bytes of the packet, as the other node reads them: its kind, its track and its payload.
  abbrev pub Reads : Packet → Bool → Bool → Bytes → Bytes → Type 0
  Reads q is_data is_eof id raw =
      (b : Bytes) × (packet_content q ≡ ok b)
      × (is_data_packet b ≡ is_data)
      × (is_eof_packet b ≡ is_eof)
      × (extract_packet parse print b ≡ ok (print id, raw))

  IsWritten-Reads :
      (q : Packet) (magic id raw : Bytes) (d e : Bool)
      → q.n ≤ length q.bytes
      → IsWritten magic id raw (take q.n q.bytes)
      → (ltb 0 (length raw) && bytes_eq magic magic_packet) ≡ d
      → ((length raw == 0) && bytes_eq magic magic_eof) ≡ e
      → Reads q d e id raw
  IsWritten-Reads q magic id raw d e le w hd he = (
    take q.n q.bytes,
    packet_content-ok q le,
    is_data_packet-IsWritten magic id raw _ w ∙ hd,
    is_eof_packet-IsWritten magic id raw _ w ∙ he,
    extract_packet-IsWritten magic id raw _ w parse print,
  )

  module _ (track_id : String) (id : Bytes) (p : Packet) (full : length p.bytes ≡ packet_max_size)
      (known : parse track_id ≡ some id) (h : length id ≡ 16) where
    -- A packet with an RTP packet of at most 1580 bytes is made, and is read as data of its track with that
    -- payload; an empty payload is neither data nor an end.
    pub new_data_packet-Reads :
        (raw : Bytes)
        → length raw ≤ 1580
        → (q : Packet) × (new_data_packet parse print track_id (length raw) (some raw) p ≡ made q)
          × Reads q (ltb 0 (length raw)) false id raw
    unfolding new_data_packet bytes_eq
    new_data_packet-Reads raw fits =
        let l = length-copy_at 20 raw p.bytes in
        let l' = length-copy_at 0 magic_packet (copy_at 20 raw p.bytes) in
        let l'' = length-copy_at 4 id (copy_at 0 magic_packet (copy_at 20 raw p.bytes)) in
        let size : length raw + 20 ≤ length p.bytes = omega (arith, full, fits) in
        let q : Packet = record {
          track_id = track_id;
          bytes = with_header magic_packet id (copy_at 20 raw p.bytes);
          n = length raw + 20;
        } in
        (
          q,
          ap (data_packet parse print track_id (length raw) (some raw) p) known
              ∙ ground (arith, fits),
          IsWritten-Reads q magic_packet id raw _ _ (omega (arith, l, l', l'', size))
              (IsWritten-last magic_packet id raw p.bytes size refl h) (ground arith)
              (ground arith),
        )

    -- A packet that ends a track is read as the end of that track.
    pub new_eof_packet-Reads :
        (q : Packet) × (new_eof_packet parse print track_id p ≡ made q) × Reads q false true id []
    unfolding new_eof_packet bytes_eq
    new_eof_packet-Reads =
        let l = length-copy_at 0 magic_eof p.bytes in
        let l' = length-copy_at 4 id (copy_at 0 magic_eof p.bytes) in
        let le : 20 ≤ length p.bytes = omega (arith, full) in
        let hd = IsWritten-header magic_eof id [] p.bytes le refl h p.bytes le in
        let q : Packet = record {
          track_id = track_id;
          bytes = with_header magic_eof id p.bytes;
          n = 20;
        } in
        (
          q,
          ap (eof_packet parse print track_id p) known,
          IsWritten-Reads q magic_eof id [] _ _ (omega (arith, l, l', le))
              (IsWritten-take magic_eof id [] p.bytes le refl h q.bytes (omega (arith, l, l', le))
                hd.0 hd.1 refl)
              refl refl,
        )

    -- A packet from a buffer of 1 to 1580 bytes is read as data with that payload; one from an empty buffer
    -- is read as neither data nor an end; from a longer buffer a packet is made whose bytes cannot be
    -- taken: the slice panics.
    pub new_packet_from_buf-Reads :
        (buf : Bytes)
        → (q : Packet) × (new_packet_from_buf parse print track_id buf p ≡ made q)
          × (((length buf ≤ 1580) × Reads q (ltb 0 (length buf)) false id buf)
              ⊎ ((1580 < length buf) × (packet_content q ≡ panic index)))
    unfolding new_packet_from_buf bytes_eq
    new_packet_from_buf-Reads buf =
        let l = length-copy_at 0 magic_packet p.bytes in
        let l' = length-copy_at 4 id (copy_at 0 magic_packet p.bytes) in
        let l'' = length-copy_at 20 buf (with_header magic_packet id p.bytes) in
        let q : Packet = record {
          track_id = track_id;
          bytes = copy_at 20 buf (with_header magic_packet id p.bytes);
          n = length buf + 20;
        } in
        (
          q,
          ap (buf_packet parse print track_id buf p) known,
          elim (Bool-cases (leb (length buf) 1580)) [
            | inl k ↦
                let size : length buf + 20 ≤ length p.bytes = ground (arith, full, k) in
                inl (
                  ground (arith, k),
                  IsWritten-Reads q magic_packet id buf _ _ (omega (arith, l, l', l'', size))
                      (IsWritten-first magic_packet id buf p.bytes size refl h) (ground arith)
                      (ground arith),
                )
            | inr k ↦
                inr
                  (ground (arith, k), packet_content-panic q (ground (arith, k, full, l, l', l'')))
          ],
        )
