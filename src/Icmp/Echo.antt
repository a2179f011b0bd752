-- ===== src/Icmp/Echo.antt =====
-- The answer of src/icmp.c to an echo request.
use sapphire_os.Prelude.{
  eq→==, length, split_at-whole, sub16, Returns, ok, returns, ℕ, ◌+◌, ◌^◌, ◌<◌, ◌≡◌, refl, true,
  Option, some, List, arith,
}
use sapphire_os.Ip.{IpHeader, IpState, htons, init_header, fill_header, checksum}
use sapphire_os.Ip.Checksum.{AllBytes, checksum-words}
use sapphire_os.System.{Kernel, stats_increment}
use sapphire_os.Icmp.{
  IcmpHeader, IcmpPacket, header_length, proto_icmp, echo_reply, echo_request, icmp_bytes,
  icmp_checksum, create, recv,
}

-- a packet whose length is that of its content, and whose checksum is right
pub record IsSound (p : IcmpPacket) : Type 0 where
  pub protocol : p.ip_hdr.protocol ≡ proto_icmp
  pub total : htons p.ip_hdr.total_length ≡ 20 + header_length + length p.payload
  pub sum :
      htons p.header.icmp_sum ≡ checksum (icmp_bytes (record p.header { icmp_sum = 0 }) p.payload)

icmp_checksum-whole :
    (h : IcmpHeader) (payload : List ℕ) (n : ℕ)
    → n ≡ header_length + length payload
    → icmp_checksum h payload n ≡ ok (checksum (icmp_bytes (record h { icmp_sum = 0 }) payload))
unfolding icmp_checksum
icmp_checksum-whole h payload n e =
    let bytes = icmp_bytes (record h { icmp_sum = 0 }) payload in
    let counted : n ≡ length bytes = omega (arith, e) in rw (counted, split_at-whole bytes) refl

-- the reply to a packet
pub record IsReply (p r : IcmpPacket) : Type 0 where
  pub sound : IsSound r
  pub message : r.header.message ≡ echo_reply
  pub id : r.header.id ≡ p.header.id
  pub sequence : r.header.sequence ≡ p.header.sequence
  pub payload : r.payload ≡ p.payload
  pub dest : r.ip_hdr.dest_addr ≡ p.ip_hdr.source_addr

pub data Answered (p : IcmpPacket) : Option IcmpPacket × (IpState × Kernel) → Type 0 where
  answered : (r : IcmpPacket) (s : IpState) (k : Kernel) → IsReply p r → Answered p (some r, (s, k))

-- To a sound and secured echo request, of bytes and with a payload of fewer than 2^15 of them, where there
-- is room for the reply, a sound echo reply is sent to its source, with the same identifier, sequence
-- number and payload.
pub recv-Answered :
    (old : IpHeader) (p : IcmpPacket) (s : IpState) (k : Kernel)
    → IsSound p
    → p.header.message ≡ echo_request
    → AllBytes (icmp_bytes (record p.header { message = echo_reply; icmp_sum = 0 }) p.payload)
    → length p.payload < 2 ^ 15
    → Returns (Answered p) (recv true true old p s k)
unfolding recv create init_header fill_header stats_increment
recv-Answered old p s k v echo b l =
    let size : sub16 (htons p.ip_hdr.total_length) 20 ≡ header_length + length p.payload =
      omega (arith, v.total) in
    let inner : sub16 (sub16 (htons p.ip_hdr.total_length) 20) header_length ≡ length p.payload =
      omega (arith, size) in
    let reply = record p.header { message = echo_reply } in
    let new_sum = checksum (icmp_bytes (record reply { icmp_sum = 0 }) p.payload) in
    let (even, small) = checksum-words (icmp_bytes (record reply { icmp_sum = 0 }) p.payload) b in
    rw
      (
        v.protocol,
        icmp_checksum-whole p.header p.payload (sub16 (htons p.ip_hdr.total_length) 20) size,
        eq→== (htons p.header.icmp_sum)
            (checksum (icmp_bytes (record p.header { icmp_sum = 0 }) p.payload)) v.sum,
        echo,
        icmp_checksum-whole reply p.payload (sub16 (htons p.ip_hdr.total_length) 20) size,
        inner,
        split_at-whole p.payload,
      )
      (returns (
        answered _ _ _ (record {
          sound = record { protocol = refl; total = omega arith; sum = omega (arith, small) };
          message = refl;
          id = refl;
          sequence = refl;
          payload = refl;
          dest = refl;
        })))
