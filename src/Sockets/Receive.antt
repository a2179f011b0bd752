-- ===== src/Sockets/Receive.antt =====
-- The operations of src/sockets.c keep their sockets sound, also where memory runs out, but for the
-- data of an answer.
use sapphire_os.Prelude.{
  ltb, ◌==◌, Bool-cases, Option-cases, length, sub16, assert, IfReturns-bind, IfReturns-any,
  IfReturns, if_ok, ℕ, ◌+◌, ◌-◌, ◌%◌, ◌^◌, ◌≡◌, refl, ap, ◌∙◌, ◌⊎◌, inl, inr, Bool, true, false,
  not, ◌&&◌, ◌||◌, Option, none, some, List, [], ◌∷◌,
}
use sapphire_os.Ip.{Addr}
use sapphire_os.System.{stats_increment}
use sapphire_os.System.Stat
use sapphire_os.Sockets.{
  Socket, SockAddr, SocketsState, SockState, is_dgram, is_udpx_client, is_udpx_server, is_waiting,
  set_socket,
}
use sapphire_os.Sockets.Traffic.{
  is_answer, udpx_flags, Message, Packet, no_security, send_only, proto_udp, has, deliver,
  recv_netmsg, message_of, transmit, addressed, sendto, socket_of_port,
}
use sapphire_os.Sockets.Timeouts.{changed, resend, tick, udpx_tick, wait_time}
use sapphire_os.Sockets.Owned.{
  Good, AllGood, owns, is_some, find_socket-Good, set_socket-Good, accept-cases, store-Good,
}

-- all sockets of a state are sound
abbrev pub Sound : SocketsState → Type 0
Sound t = AllGood t.sockets

-- a UDPX answer gets the memory for its data
abbrev pub Granted : (ℕ → Bool) → Packet → Type 0
Granted room packet =
    is_answer (udpx_flags packet.body) ≡ true → room (sub16 packet.udp_length 10) ≡ true

socket_of_port-cases :
    (port : ℕ) (all : List (ℕ × Socket))
    → AllGood all
    → (socket_of_port port all ≡ none)
      ⊎ ((d : ℕ) × (s : Socket) × (socket_of_port port all ≡ some (d, s)) × Good s)
unfolding socket_of_port
socket_of_port-cases port [] good = inl refl
socket_of_port-cases port ((d, s) ∷ rest) good =
    elim (Bool-cases (is_dgram s && (s.lport == port))) [
      | inl here ↦ inr (d, s, rw (socket_of_port, here) refl, good.0)
      | inr there ↦ elim (socket_of_port-cases port rest good.1) [
        | inl nothing ↦ inl (rw (socket_of_port, there) nothing)
        | inr (e, u, is, fine) ↦ inr (e, u, rw (socket_of_port, there) is, fine)
      ]
    ]

deliver-Sound :
    (room : ℕ → Bool) (packet : Packet) (t : SocketsState)
    → Granted room packet
    → Sound t
    → IfReturns Sound (deliver room packet t)
unfolding deliver
deliver-Sound room packet t granted sound =
    elim (socket_of_port-cases packet.dest_port t.sockets sound) [
      | inl nothing ↦ rw (deliver, nothing) (if_ok sound)
      | inr (sock, s, is, good) ↦
          elim (Bool-cases (
            has s.options send_only
            || (packet.security_disabled && not (has s.options no_security)))) [
              | inl refused ↦ rw (deliver, is, refused) (if_ok sound)
              | inr wanted ↦ elim (accept-cases packet s good) [
                | inl away ↦ rw (deliver, is, wanted, away) (if_ok sound)
                | inr (new, start, takes, kind, owned) ↦
                    rw (deliver, is, wanted, takes)
                      (store-Good t room packet start sock new kind (memory start new owned) sound)
              ]
            ]
    ]
  where
    memory :
        (start : ℕ) (new : Socket)
        → (is_some new.handle ≡ owns new.state)
          ⊎ ((new.handle ≡ none) × (start ≡ 2) × (is_answer (udpx_flags packet.body) ≡ true))
        → (is_some new.handle ≡ owns new.state)
          ⊎ ((new.handle ≡ none) × (room (sub16 packet.udp_length (8 + start)) ≡ true))
    memory start new (inl same) = inl same
    memory start new (inr (empty, two, answer)) = inr (empty, rw two (granted answer))

pub recv_netmsg-Sound :
    (room : ℕ → Bool) (packet : Packet) (t : SocketsState)
    → Granted room packet
    → Sound t
    → IfReturns Sound (recv_netmsg room packet t)
unfolding recv_netmsg
recv_netmsg-Sound room packet t granted sound = elim (Bool-cases (packet.protocol == proto_udp)) [
  | inr other ↦ rw (recv_netmsg, other) (if_ok sound)
  | inl udp ↦
      elim (Bool-cases (not (packet.udp_sum == 0) && not (packet.computed == packet.udp_sum))) [
        | inr fine ↦ rw (recv_netmsg, udp, fine) (deliver-Sound room packet t granted sound)
        | inl bad ↦
            rw (recv_netmsg, udp, bad)
              (IfReturns-bind (IfReturns-any (stats_increment Stat.udp_checksum_fails t.kernel))
                λ k u. if_ok sound)
      ]
]

message_of-Good : (s : Socket) (payload : List ℕ) → Good s → Good (message_of s payload).1
unfolding message_of
message_of-Good s payload good = elim (Bool-cases (is_udpx_client s)) [
  | inl client ↦ rw (message_of, client) good
  | inr not_client ↦ elim (Bool-cases (is_udpx_server s)) [
    | inl server ↦
        rw (message_of, not_client, server) (record { dgram = good.dgram; owned = good.owned })
    | inr plain ↦ rw (message_of, not_client, plain) good
  ]
]

addressed-Good : (raddr : Option SockAddr) (s : Socket) → Good s → Good (addressed raddr s)
addressed-Good none s good = good
addressed-Good (some a) s good = record { dgram = good.dgram; owned = good.owned }

is_waiting-owns : (state : SockState) → is_waiting state ≡ true → owns state ≡ true
is_waiting-owns SockState.wait_ack e = refl
is_waiting-owns SockState.idle e = cc
is_waiting-owns SockState.rx_waiting e = cc
is_waiting-owns SockState.rx_data_pending e = cc
is_waiting-owns SockState.rx_data_received e = cc
is_waiting-owns SockState.timed_out e = cc

both : (a b : Bool) → (a && b) ≡ true → b ≡ true
both true b e = e
both false b e = cc

-- A tick changes a socket, or sends the message again that the socket owns.
tick-cases :
    (s : Socket)
    → Good s
    → ((new : Socket) × (tick s ≡ changed new) × Good new)
      ⊎ ((new : Socket) × (payload : List ℕ) × (tick s ≡ resend new)
          × (new.handle ≡ some payload)
          × Good new)
unfolding tick
tick-cases s good = elim (Bool-cases (is_udpx_client s && is_waiting s.state)) [
  | inr other ↦ inl (s, rw (tick, other) refl, good)
  | inl waits ↦ elim (Bool-cases (ltb 0 s.time_left)) [
    | inl time ↦ inl (
      record s { time_left = s.time_left - 1 },
      rw (tick, waits, time) refl,
      record { dgram = good.dgram; owned = good.owned },
    )
    | inr late ↦ elim (Bool-cases (ltb 0 ((s.tries + 255) % 2 ^ 8))) [
      | inr last ↦ inl (
        record s { tries = (s.tries + 255) % 2 ^ 8; handle = none; state = SockState.timed_out },
        rw (tick, waits, late, last) refl,
        record { dgram = good.dgram; owned = refl },
      )
      | inl more ↦ elim (Option-cases s.handle) [
        | inl empty ↦
            let there : is_some s.handle ≡ true =
              good.owned
              ∙ is_waiting-owns s.state (both (is_udpx_client s) (is_waiting s.state) waits) in
            let gone : is_some s.handle ≡ false = ap is_some empty in cc
        | inr (payload, held) ↦ inr (
          record s { tries = (s.tries + 255) % 2 ^ 8 },
          payload,
          rw (tick, waits, late, more) refl,
          held,
          record { dgram = good.dgram; owned = good.owned },
        )
      ]
    ]
  ]
]

module _ (made : Message → Option Packet) (is_loopback : Addr → Bool) (room : ℕ → Bool)
    (granted : (m : Message) (packet : Packet) → made m ≡ some packet → Granted room packet) where
  transmit-Sound :
      (sock : ℕ) (payload : List ℕ) (t : SocketsState)
      → Sound t
      → IfReturns (λ (sent, out, u). Sound u) (transmit made is_loopback room sock payload t)
  unfolding transmit
  transmit-Sound sock payload t sound =
      IfReturns-bind (find_socket-Good sock t.sockets sound) λ s good.
        IfReturns-bind (IfReturns-any (assert (is_dgram s))) λ u v.
          let message = (message_of s payload).0 in
          let after : SocketsState = record t {
            sockets = set_socket sock (message_of s payload).1 t.sockets;
          } in
          let sound' : Sound after =
            set_socket-Good sock (message_of s payload).1 t.sockets (message_of-Good s payload good)
              sound in
          elim (Option-cases (made message)) [
            | inl nothing ↦ rw nothing (if_ok sound')
            | inr (packet, is) ↦ elim (Bool-cases (is_loopback s.raddr.ipaddr)) [
              | inr away ↦ rw (is, away) (if_ok sound')
              | inl home ↦
                  rw (is, home)
                    (IfReturns-bind
                      (recv_netmsg-Sound room
                        (record packet { security_disabled = has s.options no_security }) after
                        (granted message packet is) sound')
                      λ u fine. if_ok fine)
            ]
          ]

  pub sendto-Sound :
      (random sock : ℕ) (payload : List ℕ) (raddr : Option SockAddr) (t : SocketsState)
      → Sound t
      → IfReturns
          (λ (sent, out, u). Sound u)
          (sendto made is_loopback room random sock payload raddr t)
  unfolding sendto
  sendto-Sound random sock payload raddr t sound =
      IfReturns-bind (find_socket-Good sock t.sockets sound) λ s good.
        let fine = addressed-Good raddr s good in
        elim (Bool-cases (is_udpx_client s)) [
          | inl client ↦ elim (Bool-cases (room (length payload))) [
            | inl memory ↦
                rw (client, memory)
                  (if_ok (
                    set_socket-Good sock _ t.sockets (record { dgram = fine.dgram; owned = refl })
                      sound))
            | inr no_memory ↦
                rw (client, no_memory)
                  (if_ok (
                    set_socket-Good sock _ t.sockets
                      (record { dgram = fine.dgram; owned = fine.owned }) sound))
          ]
          | inr not_client ↦ rw not_client (
              IfReturns-bind (IfReturns-any (assert (is_dgram s))) λ u v.
                transmit-Sound sock payload _
                  (set_socket-Good sock (addressed raddr s) t.sockets fine sound))
        ]

  pub udpx_tick-Sound :
      (sock : ℕ) (t : SocketsState)
      → Sound t
      → IfReturns (λ (out, u). Sound u) (udpx_tick made is_loopback room sock t)
  unfolding udpx_tick
  udpx_tick-Sound sock t sound = IfReturns-bind (find_socket-Good sock t.sockets sound) λ s good.
      elim (tick-cases s good) [
        | inl (new, is, fine) ↦ rw is (if_ok (set_socket-Good sock new t.sockets fine sound))
        | inr (new, payload, is, held, fine) ↦
            rw (is, held)
              (IfReturns-bind
                (transmit-Sound sock payload (record t { sockets = set_socket sock new t.sockets })
                  (set_socket-Good sock new t.sockets fine sound))
                λ (sent, out, u) sound'.
                  IfReturns-bind (find_socket-Good sock u.sockets sound') λ after good'. if_ok (
                    set_socket-Good sock (record after { time_left = wait_time after.tries })
                      u.sockets (record { dgram = good'.dgram; owned = good'.owned }) sound'))
      ]
