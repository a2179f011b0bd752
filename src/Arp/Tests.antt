-- ===== src/Arp/Tests.antt =====
-- A cache of two entries, one of them in use.
use sapphire_os.Prelude.{◌≡◌, refl, false, none, some, List, [], ◌∷◌, arith}
use sapphire_os.Ip.{Addr, IpState, is_zeroes, check_broadcast, addr_compare}
use sapphire_os.Arp.{Entry, Packet, oper_reply, no_addr, no_mac, find_address, get_address, recv}
use sapphire_os.Arp.Cache.{age_times, get_address-recv, get_address-age_times}

abbrev here : IpState
here = record {
  ip_address = record { ip3 = 10; ip2 = 0; ip1 = 0; ip0 = 1 };
  subnet_mask = record { ip3 = 255; ip2 = 255; ip1 = 255; ip0 = 0 };
  next_ip_id = 0;
}

abbrev near : Addr
near = record { ip3 = 10; ip2 = 0; ip1 = 0; ip0 = 7 }

abbrev far : Addr
far = record { ip3 = 10; ip2 = 0; ip1 = 0; ip0 = 9 }

abbrev cache : List Entry
cache =
    record { eth_addr = 2 ∷ 0 ∷ 0 ∷ 0 ∷ 0 ∷ 7 ∷ []; ip_addr = near; age = 4 }
    ∷ record { eth_addr = no_mac; ip_addr = no_addr; age = 100 }
    ∷ []

abbrev answer : Packet
answer = record {
  htype = 0x0100;
  ptype = 0x0008;
  hlen = 6;
  plen = 4;
  oper = oper_reply;
  sha = 2 ∷ 0 ∷ 0 ∷ 0 ∷ 0 ∷ 9 ∷ [];
  spa = far;
  tha = no_mac;
  tpa = near;
}

get_address-recv_example :
    get_address far here (recv (λ a. false) no_mac here answer cache).0
    ≡ some (2 ∷ 0 ∷ 0 ∷ 0 ∷ 0 ∷ 9 ∷ [])
unfolding check_broadcast find_address addr_compare
get_address-recv_example =
    get_address-recv (λ a. false) no_mac here answer cache refl refl refl (omega arith)

get_address-age_times_example : get_address near here (age_times 100 cache) ≡ none
unfolding check_broadcast is_zeroes addr_compare
get_address-age_times_example =
    get_address-age_times near here 100 cache ((λ l. absurd (omega arith)), ((λ l. refl), tt)) refl
      refl (omega arith)
