-- ===== src/Icmp/Tests.antt =====
-- An echo request of three bytes.
use sapphire_os.Prelude.{Returns, ℕ, refl, true, List, [], ◌∷◌, arith}
use sapphire_os.Ip.{Addr, IpHeader, IpState, htons, checksum, sum_bytes, add_carry}
use sapphire_os.System.{Kernel}
use sapphire_os.Icmp.{IcmpHeader, IcmpPacket, icmp_bytes, recv}
use sapphire_os.Icmp.Echo.{Answered, IsSound, recv-Answered}

abbrev near : Addr
near = record { ip3 = 10; ip2 = 0; ip1 = 0; ip0 = 7 }

abbrev here : IpState
here = record {
  next_ip_id = 5;
  ip_address = record { ip3 = 10; ip2 = 0; ip1 = 0; ip0 = 1 };
  subnet_mask = record { ip3 = 255; ip2 = 255; ip1 = 255; ip0 = 0 };
}

abbrev ip : IpHeader
ip = record {
  vhl = 0x45;
  ds = 0;
  total_length = htons 31;
  id = 0;
  flags_offset = 0;
  ttl = 64;
  protocol = 1;
  header_checksum = 0;
  source_addr = near;
  dest_addr = here.ip_address;
}

abbrev idle : Kernel
idle = record { stats = λ i. 0; error = 0; warnings = 0 }

abbrev three : List ℕ
three = 1 ∷ 2 ∷ 3 ∷ []

abbrev unsummed : IcmpHeader
unsummed = record { message = 8; code = 0; icmp_sum = 0; id = 77; sequence = 1 }

abbrev ping : IcmpPacket
ping = record {
  ip_hdr = ip;
  header = record unsummed { icmp_sum = htons (checksum (icmp_bytes unsummed three)) };
  payload = three;
}

ping-IsSound : IsSound ping
unfolding checksum sum_bytes add_carry
ping-IsSound = record { protocol = refl; total = refl; sum = refl }

recv-Answered_example : Returns (Answered ping) (recv true true ip ping here idle)
recv-Answered_example =
    recv-Answered ip ping here idle ping-IsSound refl
      (
        omega arith,
        (
          omega arith,
          (
            omega arith,
            (
              omega arith,
              (
                omega arith,
                (
                  omega arith,
                  (omega arith, (omega arith, (omega arith, (omega arith, (omega arith, tt))))),
                ),
              ),
            ),
          ),
        ),
      )
      (omega arith)
