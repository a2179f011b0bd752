-- ===== src/Udp.antt =====
-- src/udp.c: the header of a datagram and its checksum. The network message of src/netmsg.c, in which a
-- datagram is made, is a parameter: whether there was room for it.
pub mod Valid
mod Tests
use sapphire_os.Prelude.{
  ltb, leb, ◌==◌, if◌then◌else◌, ltb→lt, lt→ltb, le→not_ltb, eq→==, ==→eq, Bool-cases, Option-cases,
  update, bit_xor-halves, bit_and-halves, power, bit_xor-lt_power, bit_xor-lt, bit_xor-twice_power,
  bit_xor-twice, bit_and-one, bit_xor-zero, bit_xor-high, bit_xor-low, bit_xor_comm, bit_xor-undone,
  bit_or-halves, bit, bit-lt, bit-bit_and, bit-bit_or, bit_and-power, bit-power, bit-mask, length,
  get_elem?, length-append, List-cases, same_bytes, same_bytes_self, split_at, split_at-append,
  split_at-total, split_at-whole, take, drop, repeat, length-repeat, take-append, is_neg, inc, dec,
  minus_one, ℤ, add8, add16, sub16, add32, sub32, mul32, ◌>>=◌, ◌>>◌, assert, within, >>=-eq-ok,
  Returns-bind, Returns-mono, Returns-ok, Returns-value, IfReturns-bind, IfReturns-any,
  IfReturns-value, Run, Returns, IfReturns, if_ok, if_failed, if_outside, if_fuel, pos, negsuc, ok,
  assert_failed, out_of_bounds, out_of_fuel, returns, ℕ, zero, suc, ◌+◌, ◌-◌, ◌*◌, ◌/◌, ◌%◌, ◌^◌,
  ◌≤◌, ◌<◌, ◌≡◌, refl, sym, ap, ap₂, ◌∙◌, ◌≢◌, ◌↔◌, ◌⊎◌, inl, inr, Bool, true, false, not, ◌&&◌,
  ◌||◌, Option, none, some, List, [], ◌∷◌, ◌++◌, arith,
}
use sapphire_os.Ip.{
  min_packet, Addr, IpHeader, IpState, htons, addr_bytes, word_bytes, sum_bytes, init_header,
}
use sapphire_os.System.{Kernel, stats_increment}
use sapphire_os.System.Stat

-- `udp_header_t`
pub record UdpHeader : Type 0 where
  pub source_port : ℕ
  pub dest_port : ℕ
  pub udp_length : ℕ
  pub checksum : ℕ

pub record Datagram : Type 0 where
  pub ip_hdr : IpHeader
  pub header : UdpHeader
  pub payload : List ℕ

abbrev pub header_length : ℕ
header_length = 8

abbrev pub proto_udp : ℕ
proto_udp = 17

-- the header as it lies in memory, before what follows it
abbrev pub udp_bytes : UdpHeader → List ℕ → List ℕ
udp_bytes h rest =
    word_bytes h.source_port
      (word_bytes h.dest_port (word_bytes h.udp_length (word_bytes h.checksum rest)))

-- `udp_checksum_header_t`
unfoldable pub pseudo_bytes : IpHeader → UdpHeader → List ℕ
pseudo_bytes ip h =
    addr_bytes ip.source_addr (addr_bytes ip.dest_addr (0 ∷ proto_udp ∷ word_bytes h.udp_length []))

-- `udp_v_init_header`
unfoldable pub udp_init_header : ℕ → ℕ → ℕ → UdpHeader
udp_init_header source_port dest_port size = record {
  source_port = htons source_port;
  dest_port = htons dest_port;
  udp_length = htons (add16 size header_length);
  checksum = 0;
}

-- `udp_u16_checksum`; the length is what the header says, and the bytes behind the datagram are not read
unfoldable pub udp_checksum : IpHeader → UdpHeader → List ℕ → Run ℕ
udp_checksum ip h payload = do
  let sum = sum_bytes 0 (pseudo_bytes ip h)
  (datagram, rest) ←
      within (split_at (htons h.udp_length) (udp_bytes (record h { checksum = 0 }) payload))
  ok (2 ^ 16 - 1 - sum_bytes sum datagram)

-- the part of `udp_nm_create` that writes the message and counts it
unfoldable pub fill :
    IpHeader
    → ℕ
    → ℕ
    → Addr
    → ℕ
    → List ℕ
    → IpState
    → Kernel
    → Run (Option Datagram × (IpState × Kernel))
fill old source_port dest_port dest_addr ttl payload s k =
    let (ip, s') =
      init_header dest_addr proto_udp ttl (add16 (length payload % 2 ^ 16) header_length) s old in
    let h = udp_init_header source_port dest_port (length payload % 2 ^ 16) in
    udp_checksum ip h payload >>= λ sum. stats_increment Stat.netmsg_udp_created k >>= λ k'. ok (
      some (record { ip_hdr = ip; header = record h { checksum = htons sum }; payload = payload }),
      (s', k'),
    )

-- `udp_nm_create`: `room` is whether a network message of so many bytes can be made, and `old` what its
-- IP header held. The size of the message has 16 bits, and the two headers and the data are written
-- into it.
unfoldable pub create :
    (ℕ → Bool)
    → IpHeader
    → ℕ
    → ℕ
    → Addr
    → ℕ
    → List ℕ
    → IpState
    → Kernel
    → Run (Option Datagram × (IpState × Kernel))
create room old source_port dest_port dest_addr ttl payload s k =
    let total_pkt_size = add16 (length payload % 2 ^ 16) (header_length + min_packet) in
    elim (room total_pkt_size) [
      | false ↦ ok (none, (s, k))
      | true ↦ elim (ltb total_pkt_size (length payload % 2 ^ 16 + (header_length + min_packet))) [
        | true ↦ out_of_bounds
        | false ↦ fill old source_port dest_port dest_addr ttl payload s k
      ]
    ]
