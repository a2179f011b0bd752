-- ===== src/Arp.antt =====
-- gateway/arp.c, the addresses of the Ethernet side: its cache, the answers to requests, and the ageing.
-- The wireless bridge of gateway/bridging.c is a parameter, and the frames that are sent are a result.
pub mod Cache
mod Tests
use sapphire_os.Prelude.{
  ltb, leb, ◌==◌, if◌then◌else◌, add8, ℕ, zero, suc, ◌+◌, Bool, ◌||◌, Option, none, some, List, [],
  ◌∷◌,
}
use sapphire_os.Ip.{Addr, IpState, addr_compare, check_broadcast}

-- `arp_entry_t`
pub record Entry : Type 0 where
  pub eth_addr : List ℕ
  pub ip_addr : Addr
  pub age : ℕ

-- `arp_t`, its numbers as they lie in memory
pub record Packet : Type 0 where
  pub htype : ℕ
  pub ptype : ℕ
  pub hlen : ℕ
  pub plen : ℕ
  pub oper : ℕ
  pub sha : List ℕ
  pub spa : Addr
  pub tha : List ℕ
  pub tpa : Addr

abbrev pub max_cache_entries : ℕ
max_cache_entries = 16

abbrev pub max_age_ticks : ℕ
max_age_ticks = 100

abbrev pub oper_request : ℕ
oper_request = 0x0100

abbrev pub oper_reply : ℕ
oper_reply = 0x0200

abbrev pub no_addr : Addr
no_addr = record { ip3 = 0; ip2 = 0; ip1 = 0; ip0 = 0 }

abbrev pub broadcast_mac : List ℕ
broadcast_mac = 0xff ∷ 0xff ∷ 0xff ∷ 0xff ∷ 0xff ∷ 0xff ∷ []

abbrev pub no_mac : List ℕ
no_mac = 0 ∷ 0 ∷ 0 ∷ 0 ∷ 0 ∷ 0 ∷ []

-- the search of `arp_b_get_address`
unfoldable pub find_address : Addr → List Entry → Option (List ℕ)
find_address ip [] = none
find_address ip (e ∷ cache) =
    if addr_compare ip e.ip_addr then some e.eth_addr else find_address ip cache

-- `arp_b_get_address`
unfoldable pub get_address : Addr → IpState → List Entry → Option (List ℕ)
get_address ip s cache = if check_broadcast ip s then some broadcast_mac else find_address ip cache

-- the search of `arp_v_recv`: the place of the entry with the largest age, the first of them
unfoldable pub find_oldest : ℕ → ℕ → ℕ → List Entry → ℕ
find_oldest i oldest age [] = oldest
find_oldest i oldest age (e ∷ rest) =
    if ltb age e.age then find_oldest (i + 1) i e.age rest else find_oldest (i + 1) oldest age rest

abbrev pub replace : ℕ → Entry → List Entry → List Entry
replace i new [] = []
replace zero new (e ∷ cache) = new ∷ cache
replace (suc i) new (e ∷ cache) = e ∷ replace i new cache

abbrev pub first_age : List Entry → ℕ
first_age [] = 0
first_age (e ∷ cache) = e.age

-- `arp_v_create_request`
unfoldable pub create_request : List ℕ → IpState → Addr → Packet
create_request mac s target_ip = record {
  htype = 0x0100;
  ptype = 0x0008;
  hlen = 6;
  plen = 4;
  oper = oper_request;
  sha = mac;
  spa = s.ip_address;
  tha = no_mac;
  tpa = target_ip;
}

-- `arp_v_create_reply`
unfoldable pub create_reply : List ℕ → List ℕ → Addr → Addr → Packet
create_reply mac target_mac sender_ip target_ip = record {
  htype = 0x0100;
  ptype = 0x0008;
  hlen = 6;
  plen = 4;
  oper = oper_reply;
  sha = mac;
  spa = sender_ip;
  tha = target_mac;
  tpa = target_ip;
}

-- `arp_v_send_request`
unfoldable pub send_request : List ℕ → IpState → Addr → List ℕ × Packet
send_request mac s target_ip = (broadcast_mac, create_request mac s target_ip)

-- the branch of `arp_v_recv` for a reply
unfoldable pub add_entry : Packet → List Entry → List Entry
add_entry arp cache =
    replace (find_oldest 0 0 (first_age cache) cache)
      (record { eth_addr = arp.sha; ip_addr = arp.spa; age = 0 }) cache

module _ (has_bridge : Addr → Bool) (mac : List ℕ) where
  -- `arp_v_recv`: the cache, and the frame that is sent with its destination
  unfoldable pub recv : IpState → Packet → List Entry → List Entry × Option (List ℕ × Packet)
  recv s arp cache =
      if arp.oper == oper_request
      then (
        cache,
        if addr_compare s.ip_address arp.tpa || has_bridge arp.tpa
            then some (broadcast_mac, create_reply mac arp.sha arp.tpa arp.spa)
            else none,
      )
      else if arp.oper == oper_reply
      then (add_entry arp cache, none)
      else (cache, none)

-- the body of the loop of `arp_aging_thread`
unfoldable pub age_entry : Entry → Entry
age_entry e =
    if ltb e.age max_age_ticks
    then (let age = add8 e.age 1 in
        record e { age = age; ip_addr = if leb max_age_ticks age then no_addr else e.ip_addr })
    else e

-- a round of `arp_aging_thread`
unfoldable pub age_all : List Entry → List Entry
age_all [] = []
age_all (e ∷ cache) = age_entry e ∷ age_all cache
