-- ===== src/Udp/Tests.antt =====
-- A datagram of three bytes.
use sapphire_os.Prelude.{ltb, Returns, ℕ, refl, List, [], ◌∷◌, arith}
use sapphire_os.Ip.{Addr, IpHeader, IpState}
use sapphire_os.System.{Kernel}
use sapphire_os.Udp.{create}
use sapphire_os.Udp.Valid.{Made, create-Made}

abbrev near : Addr
near = record { ip3 = 10; ip2 = 0; ip1 = 0; ip0 = 7 }

abbrev here : IpState
here = record {
  next_ip_id = 5;
  ip_address = record { ip3 = 10; ip2 = 0; ip1 = 0; ip0 = 1 };
  subnet_mask = record { ip3 = 255; ip2 = 255; ip1 = 255; ip0 = 0 };
}

abbrev blank : IpHeader
blank = record {
  vhl = 0;
  ds = 0;
  total_length = 0;
  id = 0;
  flags_offset = 0;
  ttl = 0;
  protocol = 0;
  header_checksum = 0;
  source_addr = near;
  dest_addr = near;
}

abbrev idle : Kernel
idle = record { stats = λ i. 0; error = 0; warnings = 0 }

abbrev three : List ℕ
three = 1 ∷ 2 ∷ 3 ∷ []

create-Made_example :
    Returns
      (Made 7000 53 near three)
      (create (λ n. ltb n 8000) blank 7000 53 near 0 three here idle)
create-Made_example =
    create-Made (λ n. ltb n 8000) blank 7000 53 near 0 three here idle
      (record { ip3 = omega arith; ip2 = omega arith; ip1 = omega arith; ip0 = omega arith })
      (record { ip3 = omega arith; ip2 = omega arith; ip1 = omega arith; ip0 = omega arith })
      (omega arith, (omega arith, (omega arith, tt))) (omega arith) (omega arith) (omega arith) refl
