-- ===== src/Service/Kinds.antt =====
-- Every kind of segment that the makers build reads back as that kind, and carries the types of
-- client and protocol.
use redes_hamelin.Base.{ℕ, ◌-◌, ◌%◌, ◌<◌, ◌≡◌, refl, Bool, true, false, List, length, arith, bit_or}
use redes_hamelin.Segment.{Segment, is_syn, is_ack, is_err, is_fin, get_ctyp, get_ptyp}
use redes_hamelin.Segment.Checksum.{plain_sum}
use redes_hamelin.Service.{
  ClientType, upload, download, ProtocolType, stop_and_wait, selective_repeat, service, get_masks,
  get_types,
}
use redes_hamelin.Service.Makes.{kind}

-- A segment whose length field tells the truth.
abbrev pub segment_of : ℕ → ℕ → List ℕ → Segment
segment_of seq flags payload = record {
  sequence_number = seq;
  payload_length = length payload;
  flags = flags;
  payload = payload;
  checksum = 65535 - plain_sum seq flags payload % 65536;
}

abbrev pub flags_of : ℕ → ClientType → ProtocolType → ℕ
flags_of kinds c p = bit_or kinds (get_masks (service c p))

-- Segments with these flags are of this kind, whatever else they hold.
abbrev pub Reads : ℕ → Bool × Bool × Bool × Bool → Type 0
Reads kinds k =
    (c : ClientType) (p : ProtocolType) (seq : ℕ) (payload : List ℕ)
    → (kind (segment_of seq (flags_of kinds c p) payload) ≡ k)
      × (get_types (segment_of seq (flags_of kinds c p) payload) ≡ (c, p))
      × (flags_of kinds c p < 64)

pub syn-Reads : Reads 0b100000 (true, false, false, false)
unfolding is_syn is_ack is_err is_fin get_ctyp get_ptyp service get_masks get_types
syn-Reads upload stop_and_wait seq payload = (refl, refl, omega arith)
syn-Reads upload selective_repeat seq payload = (refl, refl, omega arith)
syn-Reads download stop_and_wait seq payload = (refl, refl, omega arith)
syn-Reads download selective_repeat seq payload = (refl, refl, omega arith)

pub ack-Reads : Reads 0b010000 (false, true, false, false)
unfolding is_syn is_ack is_err is_fin get_ctyp get_ptyp service get_masks get_types
ack-Reads upload stop_and_wait seq payload = (refl, refl, omega arith)
ack-Reads upload selective_repeat seq payload = (refl, refl, omega arith)
ack-Reads download stop_and_wait seq payload = (refl, refl, omega arith)
ack-Reads download selective_repeat seq payload = (refl, refl, omega arith)

pub syn_ack-Reads : Reads 0b110000 (true, true, false, false)
unfolding is_syn is_ack is_err is_fin get_ctyp get_ptyp service get_masks get_types
syn_ack-Reads upload stop_and_wait seq payload = (refl, refl, omega arith)
syn_ack-Reads upload selective_repeat seq payload = (refl, refl, omega arith)
syn_ack-Reads download stop_and_wait seq payload = (refl, refl, omega arith)
syn_ack-Reads download selective_repeat seq payload = (refl, refl, omega arith)

pub fin-Reads : Reads 0b000001 (false, false, false, true)
unfolding is_syn is_ack is_err is_fin get_ctyp get_ptyp service get_masks get_types
fin-Reads upload stop_and_wait seq payload = (refl, refl, omega arith)
fin-Reads upload selective_repeat seq payload = (refl, refl, omega arith)
fin-Reads download stop_and_wait seq payload = (refl, refl, omega arith)
fin-Reads download selective_repeat seq payload = (refl, refl, omega arith)

pub ack_fin-Reads : Reads 0b010001 (false, true, false, true)
unfolding is_syn is_ack is_err is_fin get_ctyp get_ptyp service get_masks get_types
ack_fin-Reads upload stop_and_wait seq payload = (refl, refl, omega arith)
ack_fin-Reads upload selective_repeat seq payload = (refl, refl, omega arith)
ack_fin-Reads download stop_and_wait seq payload = (refl, refl, omega arith)
ack_fin-Reads download selective_repeat seq payload = (refl, refl, omega arith)
