-- ===== src/Sockets/Tests.antt =====
-- A client of UDPX that sends a message of two bytes, and what it leads to.
use sapphire_os.Prelude.{ltb, Returns, ◌≡◌, refl, true, false, none, some, [], ◌∷◌}
use sapphire_os.System.{Kernel}
use sapphire_os.Sockets.{
  Socket, SockAddr, SocketsState, SockState, create, find_socket, sock_udpx_client,
}
use sapphire_os.Sockets.Traffic.{Packet, recvfrom, sendto}
use sapphire_os.Sockets.Receive.{Sound}
use sapphire_os.Sockets.Reached.{Reached, start, Reached-Sound, recvfrom-ready, later, created}
use sapphire_os.Sockets.Unanswered.{sent_count, ticks, sendto-given_up}

abbrev server : SockAddr
server = record { ipaddr = record { ip3 = 10; ip2 = 0; ip1 = 0; ip0 = 2 }; port = 4000 }

abbrev quiet : Kernel
quiet = record { stats = λ k. 0; error = 0; warnings = 0 }

abbrev client : Socket
client = record {
  type = sock_udpx_client;
  options = 0;
  state = SockState.idle;
  lport = 49153;
  handle = none;
  raddr = server;
  timer_setting = 0;
  timer_current = 0;
  msg_id = 0;
  time_left = 0;
  tries = 0;
  ack_request = false;
}

abbrev empty_packet : Packet
empty_packet = record {
  protocol = 17;
  source_addr = record { ip3 = 10; ip2 = 0; ip1 = 0; ip0 = 1 };
  source_port = 49153;
  dest_port = 4000;
  udp_length = 10;
  udp_sum = 0;
  computed = 0;
  body = 16 ∷ 7 ∷ [];
  security_disabled = false;
}

abbrev with_client : SocketsState
with_client = record { sockets = (3, client) ∷ []; current_ephemeral_port = 49153; kernel = quiet }

abbrev no_sockets : SocketsState
no_sockets = record { sockets = []; current_ephemeral_port = 49152; kernel = quiet }

with_client-Reached : Reached (λ m. some empty_packet) (λ a. false) with_client
unfolding create sapphire_os.Sockets.get_lport sapphire_os.Sockets.port_in_use
    sapphire_os.Sockets.fresh_socket sapphire_os.Sockets.next_port
with_client-Reached =
    later no_sockets with_client (start 49152 quiet)
      (created 1 sock_udpx_client (some 3) client (some 3) with_client refl)

Reached-Sound_example : Sound with_client
Reached-Sound_example =
    Reached-Sound (λ m. some empty_packet) (λ a. false) with_client with_client-Reached

recvfrom-ready_example : Returns (λ (ready, u). (ready ≡ false) × Sound u) (recvfrom 3 with_client)
unfolding find_socket
recvfrom-ready_example =
    recvfrom-ready (λ m. some empty_packet) (λ a. false) 3 client with_client with_client-Reached
      refl

sendto-given_up_example :
    Returns
      (λ (sent, out, t).
        (sent ≡ true)
        × Returns
            (λ (outs, u).
              (sent_count outs ≡ 4)
              × (u ≡ record with_client {
                sockets =
                    (3, record client { state = SockState.timed_out; msg_id = 7; tries = 0 }) ∷ [];
              }))
            (ticks (λ m. some empty_packet) (λ a. false) (λ n. ltb n 8000) 55 3 t))
      (sendto
        (λ m. some empty_packet)
        (λ a. false)
        (λ n. ltb n 8000)
        263
        3
        (1 ∷ 2 ∷ [])
        none
        with_client)
sendto-given_up_example =
    sendto-given_up (λ m. some empty_packet) (λ a. false) (λ n. ltb n 8000) 3
      (record client { msg_id = 7 }) (1 ∷ 2 ∷ []) 49153 quiet refl refl refl
      (λ m. (empty_packet, refl)) 263 0 refl refl
