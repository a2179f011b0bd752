-- ===== src/NetMsg.antt =====
-- src/netmsg.c: the queues of network messages. A list of src/list.c is the list of its nodes from the
-- head on. Whether a list node can be made is an argument; the transmission of a message, and what
-- src/icmp.c and src/sockets.c do with it, are results.
pub mod Order
mod Tests
use sapphire_os.Prelude.{
  leb, ◌==◌, length, add8, ◌>>=◌, ◌>>◌, Run, ok, ℕ, ◌+◌, ◌%◌, ◌^◌, Bool, true, false, ◌||◌, Option,
  none, some, List, [], ◌∷◌,
}
use sapphire_os.Ip.{IpHeader, IpState, verify_header, check_broadcast, check_loopback}
use sapphire_os.System.{Kernel, stats_increment, set_warnings}
use sapphire_os.System.Stat

-- `netmsg_state_t`: the flags, and the data, which are an IP header and what follows it
pub record NetMsg : Type 0 where
  pub flags : ℕ
  pub ip_hdr : IpHeader
  pub payload : List ℕ

-- the queues
pub record Queues : Type 0 where
  pub tx_q : List NetMsg
  pub rx_q : List NetMsg

-- `NETMSG_MAX_MESSAGES`
abbrev pub max_messages : ℕ
max_messages = 48

-- `SYS_WARN_NETMSG_FULL`
abbrev pub warn_netmsg_full : ℕ
warn_netmsg_full = 2

-- `netmsg_u8_count`
unfoldable pub message_count : Queues → ℕ
message_count q = add8 (length q.tx_q % 2 ^ 8) (length q.rx_q % 2 ^ 8)

-- `netmsg_nm_create`, with data
unfoldable pub create_message :
    Bool → IpHeader → List ℕ → Queues → Kernel → Run (Option NetMsg × Kernel)
create_message room header payload q k = elim (leb max_messages (message_count q)) [
  | true ↦ ok (none, set_warnings warn_netmsg_full k)
  | false ↦ elim room [
    | false ↦ do failed ← stats_increment Stat.netmsg_create_object_failed k; ok (none, failed)
    | true ↦ do
      created ← stats_increment Stat.netmsg_object_created k
      ok (some (record { flags = 0; ip_hdr = header; payload = payload }), created)
  ]
]

-- `netmsg_v_set_flags`
unfoldable pub set_flags : ℕ → NetMsg → NetMsg
set_flags flags msg = record msg { flags = flags }

-- `netmsg_u16_get_len`
unfoldable pub get_len : NetMsg → ℕ
get_len msg = 20 + length msg.payload

-- `netmsg_v_add_to_transmit_q`
unfoldable pub add_to_transmit_q : NetMsg → Queues → Queues
add_to_transmit_q msg q = record q { tx_q = msg ∷ q.tx_q }

-- `netmsg_v_add_to_receive_q`
unfoldable pub add_to_receive_q : NetMsg → Queues → Queues
add_to_receive_q msg q = record q { rx_q = msg ∷ q.rx_q }

-- `list_ln_remove_tail`, as the list of the nodes
unfoldable pub remove_tail : List NetMsg → Option (NetMsg × List NetMsg)
remove_tail [] = none
remove_tail (m ∷ rest) = elim (remove_tail rest) [
  | none ↦ some (m, [])
  | some (last, others) ↦ some (last, m ∷ others)
]

-- `netmsg_nm_remove_from_transmit_q`
unfoldable pub remove_from_transmit_q : Queues → Option NetMsg × Queues
remove_from_transmit_q q = elim (remove_tail q.tx_q) [
  | none ↦ (none, q)
  | some (msg, rest) ↦ (some msg, record q { tx_q = rest })
]

-- `netmsg_nm_remove_from_receive_q`
unfoldable pub remove_from_receive_q : Queues → Option NetMsg × Queues
remove_from_receive_q q = elim (remove_tail q.rx_q) [
  | none ↦ (none, q)
  | some (msg, rest) ↦ (some msg, record q { rx_q = rest })
]

-- who gets a message
pub data Receiver : Type 0 where
  nobody : Receiver
  icmp_recv : NetMsg → Receiver
  sock_recv_netmsg : NetMsg → Receiver
  transmit_msg : NetMsg → Receiver

abbrev pub proto_icmp : ℕ
proto_icmp = 1

abbrev pub proto_udp : ℕ
proto_udp = 17

-- `netmsg_v_local_receive`
unfoldable pub local_receive : IpState → NetMsg → Kernel → Run (Receiver × Kernel)
local_receive s msg k = elim (verify_header msg.ip_hdr) [
  | false ↦ do failed ← stats_increment Stat.netmsg_ipv4_checksums_failed k; ok (nobody, failed)
  | true ↦ elim (check_loopback msg.ip_hdr.dest_addr s || check_broadcast msg.ip_hdr.dest_addr s) [
    | false ↦ ok (nobody, k)
    | true ↦ elim (msg.ip_hdr.protocol == proto_icmp) [
      | true ↦ ok (icmp_recv msg, k)
      | false ↦ elim (msg.ip_hdr.protocol == proto_udp) [
        | true ↦ do
          received ← stats_increment Stat.netmsg_udp_received k
          ok (sock_recv_netmsg msg, received)
        | false ↦ ok (nobody, k)
      ]
    ]
  ]
]

-- a round of `tx_processor_thread`; the thread waits while the queue is empty
unfoldable pub tx_round : IpState → Queues → Kernel → Run (Receiver × Queues × Kernel)
tx_round s q k =
    let (taken, left) = remove_from_transmit_q q in
    elim taken [
      | none ↦ ok (nobody, q, k)
      | some msg ↦ elim (check_loopback msg.ip_hdr.dest_addr s) [
        | true ↦ do (receiver, l) ← local_receive s msg k; ok (receiver, left, l)
        | false ↦ ok (transmit_msg msg, left, k)
      ]
    ]

-- a round of `rx_processor_thread`, with `default_receive_handler`
unfoldable pub rx_round : IpState → Queues → Kernel → Run (Receiver × Queues × Kernel)
rx_round s q k =
    let (taken, left) = remove_from_receive_q q in
    elim taken [
      | none ↦ ok (nobody, q, k)
      | some msg ↦ do (receiver, l) ← local_receive s msg k; ok (receiver, left, l)
    ]
