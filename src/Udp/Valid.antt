-- ===== src/Udp/Valid.antt =====
-- The checksum of a datagram that src/udp.c makes.
use sapphire_os.Prelude.{
  ltb, if◌then◌else◌, length, split_at-whole, add16, Returns-bind, Returns, returns, ℕ, ◌+◌, ◌*◌,
  ◌%◌, ◌^◌, ◌<◌, ◌≡◌, refl, Bool, true, false, Option, some, List, arith,
}
use sapphire_os.Ip.{
  Addr, IpHeader, IpState, htons, sum_bytes, init_header, fill_header, check_loopback,
}
use sapphire_os.Ip.Checksum.{AllBytes, words, sum_bytes-Folded}
use sapphire_os.Ip.Header.{IsAddr}
use sapphire_os.System.{Kernel, stats_increment}
use sapphire_os.Udp.{
  fill, UdpHeader, Datagram, udp_bytes, pseudo_bytes, udp_init_header, udp_checksum, create,
  header_length,
}

-- the bytes of the pseudo-header and of the header and payload, as the code lays them out
abbrev all_words : IpHeader → UdpHeader → List ℕ → ℕ
all_words ip h payload = words (pseudo_bytes ip h) + words (udp_bytes h payload)

udp_checksum-words :
    (ip : IpHeader) (h : UdpHeader) (payload : List ℕ)
    → AllBytes (pseudo_bytes ip h)
    → AllBytes (udp_bytes (record h { checksum = 0 }) payload)
    → htons h.udp_length ≡ header_length + length payload
    → Returns
        (λ sum.
          (sum < 2 ^ 16) × (all_words ip (record h { checksum = htons sum }) payload % 65535 ≡ 0))
        (udp_checksum ip h payload)
unfolding udp_checksum pseudo_bytes
udp_checksum-words ip h payload a b size =
    let bytes = udp_bytes (record h { checksum = 0 }) payload in
    let first = sum_bytes-Folded 0 (pseudo_bytes ip h) (omega arith) a in
    let all = sum_bytes-Folded (sum_bytes 0 (pseudo_bytes ip h)) bytes first.small b in
    let counted : htons h.udp_length ≡ length bytes = omega (arith, size) in
    rw (counted, split_at-whole bytes)
      (returns (omega arith, omega (arith, first.whole, all.whole, all.small)))

pseudo_bytes-AllBytes :
    (ip : IpHeader) (h : UdpHeader)
    → IsAddr ip.source_addr
    → IsAddr ip.dest_addr
    → h.udp_length < 2 ^ 16
    → AllBytes (pseudo_bytes ip h)
unfolding pseudo_bytes
pseudo_bytes-AllBytes ip h p q l = (
  p.ip3,
  (
    p.ip2,
    (
      p.ip1,
      (
        p.ip0,
        (
          q.ip3,
          (q.ip2, (q.ip1, (q.ip0, (omega arith, (omega arith, (omega arith, (omega arith, tt))))))),
        ),
      ),
    ),
  ),
)

udp_bytes-AllBytes :
    (h : UdpHeader) (payload : List ℕ)
    → h.source_port < 2 ^ 16
    → h.dest_port < 2 ^ 16
    → h.udp_length < 2 ^ 16
    → h.checksum < 2 ^ 16
    → AllBytes payload
    → AllBytes (udp_bytes h payload)
udp_bytes-AllBytes h payload a b c e p = (
  omega arith,
  (
    omega arith,
    (omega arith, (omega arith, (omega arith, (omega arith, (omega arith, (omega arith, p)))))),
  ),
)

-- the two words of an address
abbrev pub addr_words : Addr → ℕ
addr_words a = (a.ip3 * 256 + a.ip2) + (a.ip1 * 256 + a.ip0)

-- What the receiver sums up by RFC 768: of the pseudo-header the addresses, the protocol 17 and the
-- length, then the words of the header, all in the order of the network, and the payload.
abbrev pub rfc_sum : Datagram → ℕ
rfc_sum d =
    addr_words d.ip_hdr.source_addr
    + addr_words d.ip_hdr.dest_addr
    + 17
    + htons d.header.udp_length
    + (htons d.header.source_port
        + htons d.header.dest_port
        + htons d.header.udp_length
        + htons d.header.checksum
        + words d.payload)

all_words-rfc_sum :
    (d : Datagram)
    → d.header.source_port < 2 ^ 16
    → d.header.dest_port < 2 ^ 16
    → d.header.udp_length < 2 ^ 16
    → d.header.checksum < 2 ^ 16
    → all_words d.ip_hdr d.header d.payload ≡ rfc_sum d
unfolding pseudo_bytes
all_words-rfc_sum d a b c e = omega arith

-- What is known of a datagram that was made.
pub data Made (source_port dest_port : ℕ) (dest_addr : Addr) (payload : List ℕ)
    : Option Datagram × (IpState × Kernel) → Type 0 where
  made :
      (d : Datagram) (s : IpState) (k : Kernel)
      → d.payload ≡ payload
      → htons d.header.udp_length ≡ header_length + length payload
      → htons d.header.source_port ≡ source_port
      → htons d.header.dest_port ≡ dest_port
      → d.ip_hdr.dest_addr ≡ dest_addr
      → d.ip_hdr.protocol ≡ 17
      → rfc_sum d % 65535 ≡ 0
      → Made source_port dest_port dest_addr payload (some d, (s, k))

-- A datagram of bytes that fits 16 bits with its UDP and IP headers, made where there is room for it, has
-- its ports, its length and its destination in its headers, and a checksum with which the words that
-- RFC 768 names, of the pseudo-header, of the header and of the payload, add up to a multiple of 65535.
pub create-Made :
    (room : ℕ → Bool) (old : IpHeader) (source_port dest_port : ℕ) (dest_addr : Addr) (ttl : ℕ)
    (payload : List ℕ) (s : IpState) (k : Kernel)
    → IsAddr dest_addr
    → IsAddr s.ip_address
    → AllBytes payload
    → source_port < 2 ^ 16
    → dest_port < 2 ^ 16
    → 28 + length payload < 2 ^ 16
    → room (28 + length payload) ≡ true
    → Returns
        (Made source_port dest_port dest_addr payload)
        (create room old source_port dest_port dest_addr ttl payload s k)
unfolding create fill init_header fill_header udp_init_header stats_increment
create-Made room old source_port dest_port dest_addr ttl payload s k p q b sp dp l memory =
    let h = udp_init_header source_port dest_port (length payload % 2 ^ 16) in
    let ip =
      (init_header dest_addr 17 ttl (add16 (length payload % 2 ^ 16) header_length) s old).0 in
    let size : htons h.udp_length ≡ header_length + length payload = omega arith in
    let total : add16 (length payload % 2 ^ 16) 28 ≡ 28 + length payload = omega arith in
    let fits : ltb (add16 (length payload % 2 ^ 16) 28) (length payload % 2 ^ 16 + 28) ≡ false =
      rw total (ground arith) in
    rw (create, total, memory, fits)
      (Returns-bind
        (udp_checksum-words ip h payload
          (pseudo_bytes-AllBytes ip h (source (check_loopback dest_addr s)) p (omega arith))
          (udp_bytes-AllBytes (record h { checksum = 0 }) payload (omega arith) (omega arith)
            (omega arith) (omega arith) b)
          size)
        λ sum (small, zero_sum).
          let d : Datagram = record {
            ip_hdr = ip;
            header = record h { checksum = htons sum };
            payload = payload;
          } in
          let sums = all_words-rfc_sum d (omega arith) (omega arith) (omega arith) (omega arith) in
          returns
            (made d _ _ refl size (omega arith) (omega arith) refl refl (rw (← sums) zero_sum)))
  where
    source : (loop : Bool) → IsAddr (if loop then dest_addr else s.ip_address)
    source true = p
    source false = q
