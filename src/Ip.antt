-- ===== src/Ip.antt =====
-- src/ip.c: the IP header, its checksum, and addresses.
-- The words of a header are what the little-endian processor reads from it. The two configuration
-- parameters that the functions get from src/config.c are fields of the state.
pub mod Checksum
pub mod Header
pub mod Built
pub mod Address
mod Tests
use Prim.Native.Nat.{bit_and}
use sapphire_os.Prelude.{
  ltb, leb, ◌==◌, if◌then◌else◌, ltb→lt, lt→ltb, le→not_ltb, eq→==, ==→eq, Bool-cases, Option-cases,
  update, length, get_elem?, length-append, List-cases, is_neg, inc, dec, minus_one, ℤ, add8, add16,
  sub16, add32, sub32, mul32, ◌>>=◌, ◌>>◌, assert, within, >>=-eq-ok, Returns-bind, Returns-mono,
  Returns-ok, Run, Returns, pos, negsuc, ok, assert_failed, out_of_bounds, out_of_fuel, returns, ℕ,
  zero, suc, ◌+◌, ◌-◌, ◌*◌, ◌/◌, ◌%◌, ◌^◌, ◌≤◌, ◌<◌, ◌≡◌, refl, sym, ap, ap₂, ◌∙◌, ◌≢◌, ◌↔◌, ◌⊎◌,
  inl, inr, Bool, true, false, not, ◌&&◌, ◌||◌, Option, none, some, List, [], ◌∷◌, ◌++◌, arith,
}

-- `ip_addr_t`
pub record Addr : Type 0 where
  pub ip3 : ℕ
  pub ip2 : ℕ
  pub ip1 : ℕ
  pub ip0 : ℕ

-- `ip_hdr_t`
pub record IpHeader : Type 0 where
  pub vhl : ℕ
  pub ds : ℕ
  pub total_length : ℕ
  pub id : ℕ
  pub flags_offset : ℕ
  pub ttl : ℕ
  pub protocol : ℕ
  pub header_checksum : ℕ
  pub source_addr : Addr
  pub dest_addr : Addr

pub record IpState : Type 0 where
  pub next_ip_id : ℕ
  pub ip_address : Addr
  pub subnet_mask : Addr

-- `( IP_VERSION << 4 ) | IP_HEADER_LENGTH`
abbrev pub version_length : ℕ
version_length = 0x45

abbrev pub default_ttl : ℕ
default_ttl = 64

abbrev pub min_packet : ℕ
min_packet = 20

abbrev pub max_packet : ℕ
max_packet = 576

-- `HTONS`
abbrev pub htons : ℕ → ℕ
htons n = (n * 256 + n / 256) % 2 ^ 16

abbrev pub addr_bytes : Addr → List ℕ → List ℕ
addr_bytes a rest = a.ip3 ∷ a.ip2 ∷ a.ip1 ∷ a.ip0 ∷ rest

abbrev pub word_bytes : ℕ → List ℕ → List ℕ
word_bytes w rest = w % 256 ∷ w / 256 ∷ rest

-- the header as it lies in memory
unfoldable pub header_bytes : IpHeader → List ℕ
header_bytes h =
    h.vhl
    ∷ h.ds
    ∷ word_bytes h.total_length (
        word_bytes h.id (
          word_bytes h.flags_offset (
            h.ttl
            ∷ h.protocol
            ∷ word_bytes h.header_checksum (addr_bytes h.source_addr (addr_bytes h.dest_addr [])))))

-- a word added to the sum, and the carry
unfoldable pub add_carry : ℕ → ℕ → ℕ
add_carry sum temp = if ltb (add16 sum temp) temp then add16 (add16 sum temp) 1 else add16 sum temp

-- the loop of `ip_u16_checksum`, and the last byte behind it
unfoldable pub sum_bytes : ℕ → List ℕ → ℕ
sum_bytes sum [] = sum
sum_bytes sum (a ∷ []) = add_carry sum (a * 256)
sum_bytes sum (a ∷ b ∷ rest) = sum_bytes (add_carry sum (a * 256 + b)) rest

-- `ip_u16_checksum`
unfoldable pub checksum : List ℕ → ℕ
checksum data' = 2 ^ 16 - 1 - sum_bytes 0 data'

-- `ip_u16_ip_hdr_checksum`
unfoldable pub header_sum : IpHeader → ℕ
header_sum h = checksum (header_bytes (record h { header_checksum = 0 }))

-- `ip_b_addr_compare`
unfoldable pub addr_compare : Addr → Addr → Bool
addr_compare a b = (a.ip3 == b.ip3) && (a.ip2 == b.ip2) && (a.ip1 == b.ip1) && (a.ip0 == b.ip0)

abbrev pub mask : Addr → Addr → Addr
mask a m = record {
  ip3 = bit_and a.ip3 m.ip3;
  ip2 = bit_and a.ip2 m.ip2;
  ip1 = bit_and a.ip1 m.ip1;
  ip0 = bit_and a.ip0 m.ip0;
}

-- `ip_b_mask_compare`
unfoldable pub mask_compare : Addr → Addr → Addr → Bool
mask_compare subnet_addr subnet_mask dest =
    addr_compare (mask subnet_addr subnet_mask) (mask dest subnet_mask)

-- `ip_b_is_zeroes`
unfoldable pub is_zeroes : Addr → Bool
is_zeroes a = (a.ip3 == 0) && (a.ip2 == 0) && (a.ip1 == 0) && (a.ip0 == 0)

abbrev pub complement : Addr → Addr
complement a = record { ip3 = 255 - a.ip3; ip2 = 255 - a.ip2; ip1 = 255 - a.ip1; ip0 = 255 - a.ip0 }

-- `ip_b_check_broadcast`
unfoldable pub check_broadcast : Addr → IpState → Bool
check_broadcast dest s =
    addr_compare (mask dest (complement s.subnet_mask)) (complement s.subnet_mask)

abbrev pub loopback : Addr
loopback = record { ip3 = 127; ip2 = 0; ip1 = 0; ip0 = 0 }

abbrev pub loopback_mask : Addr
loopback_mask = record { ip3 = 255; ip2 = 0; ip1 = 0; ip0 = 0 }

-- `ip_b_check_loopback`, which is also `ip_b_check_dest`
unfoldable pub check_loopback : Addr → IpState → Bool
check_loopback dest s =
    if addr_compare dest s.ip_address
    then true
    else if mask_compare loopback loopback_mask dest
    then true
    else false

-- the header that `ip_v_init_header` builds, before its checksum
unfoldable pub fill_header : Addr → ℕ → ℕ → ℕ → IpState → IpHeader → IpHeader
fill_header dest protocol ttl len s h = record h {
  vhl = version_length;
  ds = 0;
  flags_offset = 0;
  ttl = if ttl == 0 then default_ttl else ttl;
  id = htons s.next_ip_id;
  protocol = protocol;
  total_length = htons (add16 len 20);
  dest_addr = dest;
  source_addr = if check_loopback dest s then dest else s.ip_address;
}

-- `ip_v_init_header`
unfoldable pub init_header : Addr → ℕ → ℕ → ℕ → IpState → IpHeader → IpHeader × IpState
init_header dest protocol ttl len s h =
    let filled = fill_header dest protocol ttl len s h in
    (
      record filled { header_checksum = htons (header_sum filled) },
      record s { next_ip_id = add16 s.next_ip_id 1 },
    )

-- `ip_b_verify_header`
unfoldable pub verify_header : IpHeader → Bool
verify_header h =
    if not (h.vhl == version_length)
    then false
    else if ltb (htons h.total_length) min_packet || ltb max_packet (htons h.total_length)
    then false
    else if not (htons h.flags_offset % 2 ^ 13 == 0)
    then false
    else if not (h.protocol == 1) && not (h.protocol == 17) && not (h.protocol == 6)
    then false
    else if not (htons h.header_checksum == header_sum h)
    then false
    else true

-- `ip_u32_to_int`: `ip1 << 8` is computed in a signed int of 16 bits
unfoldable pub to_int : Addr → ℕ
to_int a =
    let low = if ltb a.ip1 128 then a.ip1 * 256 else a.ip1 * 256 + (2 ^ 32 - 2 ^ 16) in
    add32 (add32 (add32 (a.ip3 * 2 ^ 24) (a.ip2 * 2 ^ 16)) low) a.ip0

-- `ip_a_from_int`
unfoldable pub from_int : ℕ → Addr
from_int i = record {
  ip3 = i / 2 ^ 24 % 2 ^ 8;
  ip2 = i / 2 ^ 16 % 2 ^ 8;
  ip1 = i / 2 ^ 8 % 2 ^ 8;
  ip0 = i % 2 ^ 8;
}
