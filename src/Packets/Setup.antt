-- ===== src/Packets/Setup.antt =====
-- The packets that set up a connection between two nodes.
use conference_go.Common.{
  Bool, true, false, not, if◌then◌else◌, ok, length, ◌≡◌, refl, arith, subst, ◌∙◌,
}
use conference_go.Frames.{Bytes}
use conference_go.Socket.{bytes_eq}
use conference_go.Packets.{
  magic_setup, magic_ark, zeros, copy_at, new_setup_packet_buf, new_setup_ark_packet_buf, is_setup,
  is_setup_ark, is_setup_id, decode_setup_packet, decode_setup_ark_packet, transport, wrong_magic,
}
use conference_go.Packets.Buffers.{
  bytes_eq_iff, length-copy_at, length-zeros, window, window-copy_at, window-before,
}

-- The bytes are these magic bytes and this id.
abbrev IsSetupOf : Bytes → Bytes → Bytes → Type 0
IsSetupOf magic id b = (length b ≡ 24) × (window 0 8 b ≡ magic) × (window 8 16 b ≡ id)

setup_buf-IsSetupOf :
    (magic id : Bytes)
    → length magic ≡ 8
    → length id ≡ 16
    → IsSetupOf magic id (copy_at 8 id (copy_at 0 magic (zeros 24)))
setup_buf-IsSetupOf magic id m h =
    let z = length-zeros 24 in
    let l = length-copy_at 0 magic (zeros 24) in
    (
      omega (arith, z, l, length-copy_at 8 id (copy_at 0 magic (zeros 24))),
      window-before 0 8 8 id (copy_at 0 magic (zeros 24)) (omega arith)
          ∙ subst (λ k. window 0 k (copy_at 0 magic (zeros 24)) ≡ magic) m
              (window-copy_at 0 magic (zeros 24) (omega (arith, m, z))),
      subst (λ k. window 8 k (copy_at 8 id (copy_at 0 magic (zeros 24))) ≡ id) h
          (window-copy_at 8 id (copy_at 0 magic (zeros 24)) (omega (arith, h, z, l))),
    )

-- What the packet of a setup is to each test and to each decoder.
abbrev pub AreRead : Bytes → Bytes → Bool → Type 0
AreRead id b ark =
    (is_setup b ≡ not ark)
    × (is_setup_ark b ≡ ark)
    × (is_setup_id b id ≡ true)
    × (decode_setup_packet b 24 ≡ ok (if ark then wrong_magic else transport id))
    × (decode_setup_ark_packet b 24 ≡ ok (if ark then transport id else wrong_magic))

bytes_eq_refl : (a : Bytes) → bytes_eq a a ≡ true
bytes_eq_refl a = (bytes_eq_iff a a).1 refl

IsSetupOf-AreRead :
    (id b : Bytes) (ark : Bool)
    → IsSetupOf (if ark then magic_ark else magic_setup) id b
    → AreRead id b ark
unfolding is_setup is_setup_ark is_setup_id decode_setup_packet decode_setup_ark_packet bytes_eq
IsSetupOf-AreRead id b true (l, m, i) = (
  rw (l, m) refl,
  rw (l, m) refl,
  rw (l, i) (bytes_eq_refl id),
  rw (l, m) refl,
  rw (l, m, i) refl,
)
IsSetupOf-AreRead id b false (l, m, i) = (
  rw (l, m) refl,
  rw (l, m) refl,
  rw (l, i) (bytes_eq_refl id),
  rw (l, m, i) refl,
  rw (l, m) refl,
)

-- The setup packet of an id of 16 bytes is read as a setup and not as its acknowledgement, and its id is
-- read back; the acknowledgement is read as that, and not as a setup.
pub new_setup_packet_buf-AreRead :
    (id : Bytes)
    → length id ≡ 16
    → AreRead id (new_setup_packet_buf id) false × AreRead id (new_setup_ark_packet_buf id) true
unfolding new_setup_packet_buf new_setup_ark_packet_buf
new_setup_packet_buf-AreRead id h = (
  IsSetupOf-AreRead id _ false (setup_buf-IsSetupOf magic_setup id refl h),
  IsSetupOf-AreRead id _ true (setup_buf-IsSetupOf magic_ark id refl h),
)
