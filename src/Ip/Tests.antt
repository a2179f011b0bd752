-- ===== src/Ip/Tests.antt =====
-- src/ip.c on the header of a datagram from 10.0.0.2 to 10.0.0.7.
use sapphire_os.Prelude.{ℕ, ◌+◌, ◌%◌, ◌^◌, ◌<◌, ◌≡◌, refl, ◌≢◌, inl, inr, true, [], ◌∷◌, arith}
use sapphire_os.Ip.{
  Addr, IpHeader, IpState, header_bytes, checksum, header_sum, sum_bytes, add_carry, addr_compare,
  mask_compare, check_loopback, fill_header, init_header, verify_header,
}
use sapphire_os.Ip.Checksum.{words, checksum-words}
use sapphire_os.Ip.Built.{verify_header-init_header}

abbrev addr : ℕ → Addr
addr last = record { ip3 = 10; ip2 = 0; ip1 = 0; ip0 = last }

abbrev node : IpState
node = record {
  next_ip_id = 65535;
  ip_address = addr 2;
  subnet_mask = record { ip3 = 255; ip2 = 255; ip1 = 255; ip0 = 0 };
}

abbrev datagram : IpHeader
datagram = record {
  vhl = 0x45;
  ds = 0;
  total_length = 0x3000;
  id = 0xFFFF;
  flags_offset = 0;
  ttl = 64;
  protocol = 17;
  header_checksum = 0xB566;
  source_addr = addr 2;
  dest_addr = addr 7;
}

built : (init_header (addr 7) 17 0 28 node datagram).0 ≡ datagram
unfolding init_header fill_header header_sum header_bytes checksum sum_bytes add_carry addr_compare
    mask_compare check_loopback
built = refl

accepted_datagram : verify_header datagram ≡ true
unfolding verify_header header_sum header_bytes checksum sum_bytes add_carry
accepted_datagram = refl

checksum-words_example :
    ((words (1 ∷ 2 ∷ 3 ∷ []) + checksum (1 ∷ 2 ∷ 3 ∷ [])) % 65535 ≡ 0)
    × (checksum (1 ∷ 2 ∷ 3 ∷ []) < 2 ^ 16)
checksum-words_example =
    checksum-words (1 ∷ 2 ∷ 3 ∷ []) (omega arith, (omega arith, (omega arith, tt)))

verify_header-init_header_example :
    (verify_header (init_header (addr 7) 17 0 28 node datagram).0 ≡ true)
    × ((dest : Addr) (protocol ttl len : ℕ) (old : IpHeader)
        → (init_header dest protocol ttl len
            (init_header (addr 7) 17 0 28 node datagram).1
            old).0.id
          ≢ (init_header (addr 7) 17 0 28 node datagram).0.id)
verify_header-init_header_example =
    verify_header-init_header (addr 7) 17 0 28 node datagram (omega arith) (omega arith)
      (omega arith) (omega arith) (omega arith) (omega arith) (omega arith) (inr (inl refl))
