-- ===== src/Ip/Built.antt =====
-- `ip_v_init_header` of src/ip.c builds headers that `ip_b_verify_header` accepts.
use sapphire_os.Prelude.{
  if◌then◌else◌, Bool-cases, add16, ℕ, ◌+◌, ◌^◌, ◌≤◌, ◌<◌, ◌≡◌, sym, ap, ◌∙◌, ◌≢◌, ◌⊎◌, inl, inr,
  true, arith,
}
use sapphire_os.Ip.{
  Addr, IpHeader, IpState, htons, header_sum, check_loopback, fill_header, init_header,
  verify_header,
}
use sapphire_os.Ip.Header.{IsAddr, IsHeader, header_sum-lt, htons-htons}

module _ (dest : Addr) (protocol ttl len : ℕ) (s : IpState) (h : IpHeader) (d : IsAddr dest)
    (own : IsAddr s.ip_address) (t : ttl < 2 ^ 8) (n : s.next_ip_id < 2 ^ 16) (p : protocol < 2 ^ 8)
    (c : h.header_checksum < 2 ^ 16) where
  source : IsAddr (if check_loopback dest s then dest else s.ip_address)
  source = elim (Bool-cases (check_loopback dest s)) [ inl e ↦ rw e d | inr e ↦ rw e own ]

  fill_header-IsHeader : IsHeader (fill_header dest protocol ttl len s h)
  unfolding fill_header
  fill_header-IsHeader = record {
    vhl = omega arith;
    ds = omega arith;
    total_length = omega arith;
    id = omega arith;
    flags_offset = omega arith;
    ttl = ground arith;
    protocol = p;
    header_checksum = c;
    source_addr = source;
    dest_addr = d;
  }

  other_id : htons (add16 s.next_ip_id 1) ≢ htons s.next_ip_id
  other_id e =
      let one = htons-htons (add16 s.next_ip_id 1) (omega arith) in
      let two = htons-htons s.next_ip_id n in
      let same : add16 s.next_ip_id 1 ≡ s.next_ip_id = sym one ∙ ap htons e ∙ two in
      omega (arith, same)

  -- For a packet of at most 556 bytes of ICMP, UDP or TCP, `ip_v_init_header` builds a header that
  -- `ip_b_verify_header` accepts, whatever the header held, and the header that is built next, for any
  -- destination, protocol, time to live and length, has another identifier.
  pub verify_header-init_header :
      len ≤ 556
      → (protocol ≡ 1) ⊎ (protocol ≡ 17) ⊎ (protocol ≡ 6)
      → (verify_header (init_header dest protocol ttl len s h).0 ≡ true)
        × ((dest' : Addr) (protocol' ttl' len' : ℕ) (old : IpHeader)
            → (init_header dest' protocol' ttl' len'
                (init_header dest protocol ttl len s h).1
                old).0.id
              ≢ (init_header dest protocol ttl len s h).0.id)
  unfolding verify_header init_header fill_header header_sum
  verify_header-init_header l kind =
      let sum = header_sum (fill_header dest protocol ttl len s h) in
      let back : htons (htons sum) ≡ sum = htons-htons sum (header_sum-lt _ fill_header-IsHeader) in
      let length' : htons (htons (add16 len 20)) ≡ len + 20 = omega arith in
      (rw (back, length') (ground arith), λ dest' protocol' ttl' len' old e. other_id e)
