-- ===== src/Sockets/Traffic.antt =====
-- Sending and receiving: src/sockets.c. A message is what the socket gives udp_nm_create or
-- udpx_nm_create to make; a packet is what `sock_v_recv_netmsg` reads of an IP packet that holds a
-- datagram. What a message becomes, if there is memory for it, is a parameter.
use sapphire_os.Prelude.{
  ◌==◌, if◌then◌else◌, bit, length, split_at, sub16, ◌>>=◌, ◌>>◌, assert, within, Run, ok,
  assert_failed, ℕ, ◌+◌, ◌%◌, ◌^◌, Bool, true, false, not, ◌&&◌, ◌||◌, Option, none, some, List, [],
  ◌∷◌,
}
use sapphire_os.Ip.{Addr}
use sapphire_os.System.{stats_increment}
use sapphire_os.System.Stat
use sapphire_os.Sockets.{
  Socket, SockAddr, SocketsState, SockState, is_waiting, is_dgram, is_udpx_client, is_udpx_server,
  find_socket, set_socket,
}

pub record Message : Type 0 where
  pub udpx : Option (ℕ × ℕ)
  pub source_port : ℕ
  pub dest_port : ℕ
  pub dest_addr : Addr
  pub ttl : ℕ
  pub payload : List ℕ

-- The body is the bytes behind the UDP header; `computed` is what udp_u16_checksum gives.
pub record Packet : Type 0 where
  pub protocol : ℕ
  pub source_addr : Addr
  pub source_port : ℕ
  pub dest_port : ℕ
  pub udp_length : ℕ
  pub udp_sum : ℕ
  pub computed : ℕ
  pub body : List ℕ
  pub security_disabled : Bool

-- what a transmission ends with: a message for the transmit queue, with its flags, or none
pub data Queued : Type 0 where
  queued : Message → ℕ → Queued
  not_queued : Queued

-- the digits of `sock_options_t8`
abbrev pub ttl_one : ℕ
ttl_one = 0

abbrev pub no_security : ℕ
no_security = 1

abbrev pub send_only : ℕ
send_only = 2

abbrev pub no_ack_request : ℕ
no_ack_request = 3

abbrev pub no_wireless : ℕ
no_wireless = 4

-- `UDPX_FLAGS_SVR`, `UDPX_FLAGS_ARQ` and `UDPX_FLAGS_ACK`, and the digits of all flags
abbrev pub flags_svr : ℕ
flags_svr = 32

abbrev pub flags_arq : ℕ
flags_arq = 16

abbrev pub flags_ack : ℕ
flags_ack = 8

-- `UDPX_MAX_TRIES`
abbrev pub max_tries : ℕ
max_tries = 5

abbrev pub proto_udp : ℕ
proto_udp = 17

abbrev pub has : ℕ → ℕ → Bool
has flags digit = bit flags digit == 1

-- the header of UDPX
abbrev pub udpx_flags : List ℕ → ℕ
udpx_flags [] = 0
udpx_flags (flags ∷ rest) = flags

abbrev pub udpx_id : List ℕ → ℕ
udpx_id [] = 0
udpx_id (flags ∷ []) = 0
udpx_id (flags ∷ id ∷ rest) = id

-- the tests of a server's answer, and of a client's message
abbrev pub is_answer : ℕ → Bool
is_answer flags =
    not (has flags 7) && not (has flags 6) && has flags 5 && not (has flags 4) && has flags 3

abbrev pub is_request : ℕ → Bool
is_request flags = not (has flags 7) && not (has flags 6) && not (has flags 5) && not (has flags 3)

-- the search for the socket of a port
unfoldable pub socket_of_port : ℕ → List (ℕ × Socket) → Option (ℕ × Socket)
socket_of_port port [] = none
socket_of_port port ((d, s) ∷ rest) =
    let later = socket_of_port port rest in
    if is_dgram s && (s.lport == port) then some (d, s) else later

-- The part of `sock_v_recv_netmsg` that depends on the kind of the socket: the socket, and where the
-- data start behind the UDP header, unless the message is thrown away.
unfoldable pub accept : Packet → Socket → Option (Socket × ℕ)
accept packet s =
    if is_udpx_client s
    then (if is_answer (udpx_flags packet.body)
          && (s.msg_id == udpx_id packet.body)
          && is_waiting s.state
        then some (record s { handle = none }, 2)
        else none)
    else if is_udpx_server s
    then (if is_request (udpx_flags packet.body)
        then some (
          record s { msg_id = udpx_id packet.body; ack_request = has (udpx_flags packet.body) 4 },
          2,
        )
        else none)
    else some (s, 0)

-- the end of `sock_v_recv_netmsg`, for the socket that takes the data; the state of the socket that
-- `accept` changed stays changed where the data are dropped. `room` is whether so many bytes can be
-- allocated; a UDPX message that is shorter than its header asks for about 2^16.
unfoldable pub store : (ℕ → Bool) → Packet → ℕ → ℕ → Socket → SocketsState → Run SocketsState
store room packet start sock s t =
    let changed : SocketsState = record t { sockets = set_socket sock s t.sockets } in
    let data_len = sub16 packet.udp_length (8 + start) in
    elim s.handle [
      | some bytes ↦ do
        k ← stats_increment Stat.sockets_packets_dropped t.kernel
        ok (record changed { kernel = k })
      | none ↦ elim (room data_len) [
        | false ↦ ok changed
        | true ↦ do
          (front, payload) ← within (split_at start packet.body)
          (stored, rest) ← within (split_at data_len payload)
          ok (record t {
            sockets =
                set_socket sock
                  (record s {
                    handle = some stored;
                    raddr = record { ipaddr = packet.source_addr; port = packet.source_port };
                    state = SockState.rx_data_pending;
                  })
                  t.sockets;
          })
      ]
    ]

-- the part of `sock_v_recv_netmsg` behind the test of the checksum
unfoldable pub deliver : (ℕ → Bool) → Packet → SocketsState → Run SocketsState
deliver room packet t = elim (socket_of_port packet.dest_port t.sockets) [
  | none ↦ ok t
  | some (sock, s) ↦
      elim (has s.options send_only
        || (packet.security_disabled && not (has s.options no_security))) [
          | true ↦ ok t
          | false ↦ elim (accept packet s) [
            | none ↦ ok t
            | some (changed, start) ↦ store room packet start sock changed t
          ]
        ]
]

-- `sock_v_recv_netmsg`
unfoldable pub recv_netmsg : (ℕ → Bool) → Packet → SocketsState → Run SocketsState
recv_netmsg room packet t = elim (packet.protocol == proto_udp) [
  | false ↦ ok t
  | true ↦ elim (not (packet.udp_sum == 0) && not (packet.computed == packet.udp_sum)) [
    | true ↦ stats_increment Stat.udp_checksum_fails t.kernel >>= λ k. ok (record t { kernel = k })
    | false ↦ deliver room packet t
  ]
]

-- `sock_i8_recvfrom`; `true` is the status 0
unfoldable pub recv_step : Socket → Run (Bool × Socket)
recv_step s = elim s.state [
  | SockState.wait_ack ↦ ok (false, s)
  | SockState.idle ↦
      ok (false, record s { timer_current = s.timer_setting; state = SockState.rx_waiting })
  | SockState.rx_waiting ↦ ok (false, s)
  | SockState.rx_data_pending ↦ elim s.handle [
    | none ↦ assert_failed
    | some bytes ↦ ok (true, record s { state = SockState.rx_data_received })
  ]
  | SockState.rx_data_received ↦ ok (false, record s { state = SockState.idle; handle = none })
  | SockState.timed_out ↦ ok (true, record s { state = SockState.idle })
]

unfoldable pub recvfrom : ℕ → SocketsState → Run (Bool × SocketsState)
recvfrom sock t = do
  s ← find_socket sock t.sockets
  assert (is_dgram s)
  (ready, new) ← recv_step s
  ok (ready, record t { sockets = set_socket sock new t.sockets })

-- the message that a socket sends, and the socket behind it
unfoldable pub message_of : Socket → List ℕ → Message × Socket
message_of s payload =
    let plain : Message = record {
      udpx = none;
      source_port = s.lport;
      dest_port = s.raddr.port;
      dest_addr = s.raddr.ipaddr;
      ttl = if has s.options ttl_one then 1 else 0;
      payload = payload;
    } in
    if is_udpx_client s
    then (
      record plain {
        udpx = some (s.msg_id, if has s.options no_ack_request then 0 else flags_arq);
      },
      s,
    )
    else if is_udpx_server s
    then (
      record plain {
        udpx = some (s.msg_id, if s.ack_request then flags_svr + flags_ack else flags_svr);
      },
      record s { msg_id = 0; ack_request = false },
    )
    else (plain, s)

-- a socket with the remote address that was given, if there was one
abbrev pub addressed : Option SockAddr → Socket → Socket
addressed none s = s
addressed (some a) s = record s { raddr = a }

module _ (made : Message → Option Packet) (is_loopback : Addr → Bool) where
  -- `sock_i8_transmit`
  unfoldable pub transmit :
      (ℕ → Bool) → ℕ → List ℕ → SocketsState → Run (Bool × Queued × SocketsState)
  transmit room sock payload t = do
    s ← find_socket sock t.sockets
    assert (is_dgram s)
    let (message, after) = message_of s payload
    let u : SocketsState = record t { sockets = set_socket sock after t.sockets }
    elim (made message) [
      | none ↦ ok (false, not_queued, u)
      | some packet ↦ elim (is_loopback s.raddr.ipaddr) [
        | true ↦ do
          v ← recv_netmsg room (record packet { security_disabled = has s.options no_security }) u
          ok (true, not_queued, v)
        | false ↦
            let flags =
              (if has s.options no_security then 1 else 0)
              + (if has s.options no_wireless then 2 else 0) in
            ok (true, queued message flags, u)
      ]
    ]

  -- `sock_i16_sendto`, with the number that rnd_u16_get_int gives for a client of UDPX
  unfoldable pub sendto :
      (ℕ → Bool)
      → ℕ
      → ℕ
      → List ℕ
      → Option SockAddr
      → SocketsState
      → Run (Bool × Queued × SocketsState)
  sendto room random sock payload raddr t = do
    s ← find_socket sock t.sockets
    elim (is_udpx_client s) [
      | true ↦
          let named : Socket = record (addressed raddr s) { msg_id = random % 2 ^ 8 } in
          elim (room (length payload)) [
            | false ↦ ok (false, not_queued, record t { sockets = set_socket sock named t.sockets })
            | true ↦ ok (
              true,
              not_queued,
              record t {
                sockets =
                    set_socket sock
                      (record named {
                        handle = some payload;
                        time_left = 0;
                        tries = max_tries;
                        state = SockState.wait_ack;
                      })
                      t.sockets;
              },
            )
          ]
      | false ↦ do
        assert (is_dgram s)
        transmit room sock payload
            (record t { sockets = set_socket sock (addressed raddr s) t.sockets })
    ]
