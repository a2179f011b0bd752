-- ===== src/Icmp.antt =====
-- src/icmp.c: control messages. The network message of src/netmsg.c in which a message is made is a
-- parameter: whether there was room for it. What is put on the queue for transmission is a result.
pub mod Echo
mod Tests
use sapphire_os.Prelude.{
  ◌==◌, if◌then◌else◌, split_at, add16, sub16, ◌>>=◌, ◌>>◌, assert, within, Run, ok, ℕ, Bool, true,
  false, Option, none, some, List, ◌∷◌, ◌++◌,
}
use sapphire_os.Ip.{Addr, IpHeader, IpState, htons, word_bytes, header_bytes, checksum, init_header}
use sapphire_os.System.{Kernel, stats_increment}
use sapphire_os.System.Stat

-- `icmp_hdr_t`
pub record IcmpHeader : Type 0 where
  pub message : ℕ
  pub code : ℕ
  pub icmp_sum : ℕ
  pub id : ℕ
  pub sequence : ℕ

-- the headers of a packet, and what follows them
pub record IcmpPacket : Type 0 where
  pub ip_hdr : IpHeader
  pub header : IcmpHeader
  pub payload : List ℕ

abbrev pub header_length : ℕ
header_length = 8

abbrev pub proto_icmp : ℕ
proto_icmp = 1

abbrev pub echo_reply : ℕ
echo_reply = 0

abbrev pub dest_unreachable : ℕ
dest_unreachable = 3

abbrev pub echo_request : ℕ
echo_request = 8

abbrev pub time_exceeded : ℕ
time_exceeded = 11

-- the header as it lies in memory, before what follows it
abbrev pub icmp_bytes : IcmpHeader → List ℕ → List ℕ
icmp_bytes h rest =
    h.message ∷ h.code ∷ word_bytes h.icmp_sum (word_bytes h.id (word_bytes h.sequence rest))

-- `icmp_u16_checksum`
unfoldable pub icmp_checksum : IcmpHeader → List ℕ → ℕ → Run ℕ
icmp_checksum h payload total_length = do
  (bytes, rest) ← within (split_at total_length (icmp_bytes (record h { icmp_sum = 0 }) payload))
  ok (checksum bytes)

-- `icmp_nm_create`, of `size` bytes
unfoldable pub create :
    Bool
    → IpHeader
    → IcmpHeader
    → Addr
    → List ℕ
    → ℕ
    → IpState
    → Kernel
    → Run (Option IcmpPacket × (IpState × Kernel))
create false old h dest_addr payload size s k = ok (none, (s, k))
create true old h dest_addr payload size s k =
    let (ip, s') = init_header dest_addr proto_icmp 0 (add16 size header_length) s old in
    within (split_at size payload) >>= λ (data_, rest).
    stats_increment Stat.netmsg_icmp_created k >>= λ k'.
    ok (some (record { ip_hdr = ip; header = h; payload = data_ }), (s', k'))

-- `icmp_v_recv`: the reply that is put on the queue; `secured` is that the message's flags do not tell
-- that it came without security
unfoldable pub recv :
    Bool
    → Bool
    → IpHeader
    → IcmpPacket
    → IpState
    → Kernel
    → Run (Option IcmpPacket × (IpState × Kernel))
recv false room old p s k = ok (none, (s, k))
recv true room old p s k = do
  assert (p.ip_hdr.protocol == proto_icmp)
  let icmp_size = sub16 (htons p.ip_hdr.total_length) 20
  sum ← icmp_checksum p.header p.payload icmp_size
  (if htons p.header.icmp_sum == sum
      then (stats_increment Stat.netmsg_icmp_received k >>= λ k'.
          if p.header.message == echo_request
          then (let reply = record p.header { message = echo_reply } in
              icmp_checksum reply p.payload icmp_size >>= λ new_sum.
              create room old (record reply { icmp_sum = htons new_sum }) p.ip_hdr.source_addr
                p.payload (sub16 icmp_size header_length) s k')
          else ok (none, (s, k')))
      else ok (none, (s, k)))

-- what `icmp_v_send_ttl_exceeded` and `icmp_v_send_dest_unreachable` share: the header of the packet and
-- the first eight bytes behind it, sent back
unfoldable pub send_error :
    ℕ
    → ℕ
    → Bool
    → IpHeader
    → IpHeader
    → List ℕ
    → IpState
    → Kernel
    → Run (Option IcmpPacket × (IpState × Kernel))
send_error message code room old ip_hdr behind s k = do
  (data_, rest) ← within (split_at 8 behind)
  let content = header_bytes ip_hdr ++ data_
  let h : IcmpHeader = record { message = message; code = code; icmp_sum = 0; id = 0; sequence = 0 }
  sum ← icmp_checksum h content 36
  create room old (record h { icmp_sum = htons sum }) ip_hdr.source_addr content 28 s k

-- `icmp_v_send_ttl_exceeded`
unfoldable pub send_ttl_exceeded :
    Bool
    → IpHeader
    → IpHeader
    → List ℕ
    → IpState
    → Kernel
    → Run (Option IcmpPacket × (IpState × Kernel))
send_ttl_exceeded room old ip_hdr behind s k = send_error time_exceeded 0 room old ip_hdr behind s k

-- `icmp_v_send_dest_unreachable`
unfoldable pub send_dest_unreachable :
    Bool
    → IpHeader
    → IpHeader
    → List ℕ
    → IpState
    → Kernel
    → Run (Option IcmpPacket × (IpState × Kernel))
send_dest_unreachable room old ip_hdr behind s k =
    send_error dest_unreachable 1 room old ip_hdr behind s k
