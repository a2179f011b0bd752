-- ===== src/Sockets/Reached.antt =====
-- The states of the sockets that calls of src/sockets.c lead to, in any order, where the data of each
-- UDPX answer get their memory.
use sapphire_os.Prelude.{
  ◌==◌, Bool-cases, Option-cases, bit, ◌>>=◌, assert, Returns-value, IfReturns-bind, IfReturns-any,
  IfReturns-value, Returns, IfReturns, if_ok, if_failed, if_fuel, ok, returns, ℕ, zero, suc, ◌≡◌,
  refl, inl, inr, Bool, true, not, ◌||◌, Option, some, List, [], ◌∷◌, arith,
}
use sapphire_os.Ip.{Addr}
use sapphire_os.System.{Kernel}
use sapphire_os.Sockets.{
  Socket, SockAddr, SocketsState, is_dgram, find_socket, set_socket, create, fresh_socket, release,
  bind, get_lport, next_port, port_in_use, sock_dgram, sock_udpx_client, sock_udpx_server,
}
use sapphire_os.Sockets.Options.{change, set_options, set_timeout, set_raddr}
use sapphire_os.Sockets.Traffic.{Message, Packet, Queued, recv_netmsg, recv_step, recvfrom, sendto}
use sapphire_os.Sockets.Timeouts.{timeout_round, udpx_tick}
use sapphire_os.Sockets.Owned.{
  Good, is_ready, find_socket-Good, set_socket-Good, remove_socket-Good, append-Good,
  recv_step-Good, timeout_round-Good,
}
use sapphire_os.Sockets.Receive.{Granted, Sound, recv_netmsg-Sound, sendto-Sound, udpx_tick-Sound}

get_lport-keeps :
    (fuel : ℕ) (s : SocketsState)
    → IfReturns (λ (port, t). t.sockets ≡ s.sockets) (get_lport fuel s)
unfolding get_lport
get_lport-keeps zero s = if_fuel
get_lport-keeps (suc fuel) s =
    let port = next_port s.current_ephemeral_port in
    elim (Bool-cases (port_in_use port s.sockets)) [
      | inl used ↦
          rw (get_lport, used) (get_lport-keeps fuel (record s { current_ephemeral_port = port }))
      | inr free ↦ rw (get_lport, free) (if_ok refl)
    ]

kinds :
    (type : ℕ)
    → ((type == sock_dgram) || (type == sock_udpx_client) || (type == sock_udpx_server)) ≡ true
    → (bit type 2 == 1) ≡ true
kinds type e = ground arith

fresh_socket-Good :
    (type port : ℕ) (old : Socket) → (bit type 2 == 1) ≡ true → Good (fresh_socket type port old)
unfolding fresh_socket
fresh_socket-Good type port old kind = elim (Bool-cases (bit type 4 == 1)) [
  | inl client ↦ rw (fresh_socket, client) (record { dgram = kind; owned = refl })
  | inr not_client ↦ elim (Bool-cases (bit type 5 == 1)) [
    | inl server ↦ rw (fresh_socket, not_client, server) (record { dgram = kind; owned = refl })
    | inr plain ↦ rw (fresh_socket, not_client, plain) (record { dgram = kind; owned = refl })
  ]
]

create-Sound :
    (fuel type : ℕ) (ln : Option ℕ) (old : Socket) (s : SocketsState)
    → Sound s
    → IfReturns (λ (result, t). Sound t) (create fuel type ln old s)
unfolding create
create-Sound fuel type ln old s sound =
    elim (Bool-cases
      ((type == sock_dgram) || (type == sock_udpx_client) || (type == sock_udpx_server))) [
        | inr invalid ↦ rw (create, invalid) if_failed
        | inl valid ↦ elim (Option-cases ln) [
          | inl full ↦ rw (create, valid, full) (if_ok sound)
          | inr (sock, made) ↦
              rw (create, valid, made)
                (IfReturns-bind (get_lport-keeps fuel s) λ (port, t) same. if_ok (
                  append-Good t.sockets ((sock, fresh_socket type port old) ∷ []) (rw same sound)
                    (fresh_socket-Good type port old (kinds type valid), tt)))
        ]
      ]

change-Sound :
    (sock : ℕ) (f : Socket → Socket) (s : SocketsState)
    → ((state : Socket) → Good state → Good (f state))
    → Sound s
    → IfReturns Sound (change sock f s)
change-Sound sock f s keeps sound =
    IfReturns-bind (find_socket-Good sock s.sockets sound) λ state good.
      IfReturns-bind (IfReturns-any (assert (is_dgram state)))
        λ u v. if_ok (set_socket-Good sock (f state) s.sockets (keeps state good) sound)

release-Sound : (sock : ℕ) (s : SocketsState) → Sound s → IfReturns Sound (release sock s)
unfolding release
release-Sound sock s sound =
    IfReturns-bind (find_socket-Good sock s.sockets sound)
      λ state good. if_ok (remove_socket-Good sock s.sockets sound)

bind-Sound : (sock port : ℕ) (s : SocketsState) → Sound s → IfReturns Sound (bind sock port s)
unfolding bind
bind-Sound sock port s sound = IfReturns-bind (find_socket-Good sock s.sockets sound) λ state good.
    IfReturns-bind (IfReturns-any (assert (is_dgram state))) λ u v.
      IfReturns-bind (IfReturns-any (assert (not (port_in_use port s.sockets)))) λ w x. if_ok (
        set_socket-Good sock (record state { lport = port }) s.sockets
          (record { dgram = good.dgram; owned = good.owned }) sound)

set_options-Sound :
    (sock options : ℕ) (s : SocketsState) → Sound s → IfReturns Sound (set_options sock options s)
unfolding set_options
set_options-Sound sock options s sound =
    IfReturns-bind (find_socket-Good sock s.sockets sound) λ state good. if_ok (
      set_socket-Good sock (record state { options = options }) s.sockets
        (record { dgram = good.dgram; owned = good.owned }) sound)

set_timeout-Sound :
    (sock timeout : ℕ) (s : SocketsState) → Sound s → IfReturns Sound (set_timeout sock timeout s)
unfolding set_timeout
set_timeout-Sound sock timeout s sound =
    change-Sound sock _ s (λ state good. record { dgram = good.dgram; owned = good.owned }) sound

set_raddr-Sound :
    (sock : ℕ) (raddr : SockAddr) (s : SocketsState)
    → Sound s
    → IfReturns Sound (set_raddr sock raddr s)
unfolding set_raddr
set_raddr-Sound sock raddr s sound =
    change-Sound sock _ s (λ state good. record { dgram = good.dgram; owned = good.owned }) sound

recvd :
    (sock : ℕ) (t : SocketsState) (s : Socket)
    → Good s
    → Sound t
    → IfReturns
        (λ (ready, u). Sound u)
        (recv_step s >>= λ (ready, new).
          ok (ready, record t { sockets = set_socket sock new t.sockets }))
recvd sock t s good sound =
    let (out, is, fine) = Returns-value (recv_step-Good s good) in
    rw is (if_ok (set_socket-Good sock out.1 t.sockets fine.0 sound))

recvfrom-Sound :
    (sock : ℕ) (t : SocketsState) → Sound t → IfReturns (λ (ready, u). Sound u) (recvfrom sock t)
unfolding recvfrom
recvfrom-Sound sock t sound =
    IfReturns-bind (find_socket-Good sock t.sockets sound)
      λ s good. rw (good.dgram) (recvd sock t s good sound)

module _ (made : Message → Option Packet) (is_loopback : Addr → Bool) where
  -- a call that returns, or a second or a tick of the threads
  pub data Step (s : SocketsState) : SocketsState → Type 0 where
    created :
        (fuel type : ℕ) (ln : Option ℕ) (old : Socket) (result : Option ℕ) (t : SocketsState)
        → create fuel type ln old s ≡ ok (result, t)
        → Step s t
    released : (sock : ℕ) (t : SocketsState) → release sock s ≡ ok t → Step s t
    bound : (sock port : ℕ) (t : SocketsState) → bind sock port s ≡ ok t → Step s t
    options_set :
        (sock options : ℕ) (t : SocketsState) → set_options sock options s ≡ ok t → Step s t
    timeout_set :
        (sock timeout : ℕ) (t : SocketsState) → set_timeout sock timeout s ≡ ok t → Step s t
    raddr_set :
        (sock : ℕ) (raddr : SockAddr) (t : SocketsState) → set_raddr sock raddr s ≡ ok t → Step s t
    received :
        (sock : ℕ) (ready : Bool) (t : SocketsState) → recvfrom sock s ≡ ok (ready, t) → Step s t
    sent :
        (room : ℕ → Bool) (random sock : ℕ) (payload : List ℕ) (raddr : Option SockAddr)
        (result : Bool) (out : Queued) (t : SocketsState)
        → ((m : Message) (packet : Packet) → made m ≡ some packet → Granted room packet)
        → sendto made is_loopback room random sock payload raddr s ≡ ok (result, out, t)
        → Step s t
    arrived :
        (room : ℕ → Bool) (packet : Packet) (t : SocketsState)
        → Granted room packet
        → recv_netmsg room packet s ≡ ok t
        → Step s t
    second_passed : Step s (record s { sockets = timeout_round s.sockets })
    ticked :
        (room : ℕ → Bool) (sock : ℕ) (out : Queued) (t : SocketsState)
        → ((m : Message) (packet : Packet) → made m ≡ some packet → Granted room packet)
        → udpx_tick made is_loopback room sock s ≡ ok (out, t)
        → Step s t

  pub data Reached : SocketsState → Type 0 where
    start :
        (port : ℕ) (kernel : Kernel)
        → Reached (record { sockets = []; current_ephemeral_port = port; kernel = kernel })
    later : (s t : SocketsState) → Reached s → Step s t → Reached t

  Step-Sound : (s t : SocketsState) → Step s t → Sound s → Sound t
  Step-Sound s _ (created fuel type ln old result t e) sound =
      IfReturns-value (create-Sound fuel type ln old s sound) e
  Step-Sound s _ (released sock t e) sound = IfReturns-value (release-Sound sock s sound) e
  Step-Sound s _ (bound sock port t e) sound = IfReturns-value (bind-Sound sock port s sound) e
  Step-Sound s _ (options_set sock options t e) sound =
      IfReturns-value (set_options-Sound sock options s sound) e
  Step-Sound s _ (timeout_set sock timeout t e) sound =
      IfReturns-value (set_timeout-Sound sock timeout s sound) e
  Step-Sound s _ (raddr_set sock raddr t e) sound =
      IfReturns-value (set_raddr-Sound sock raddr s sound) e
  Step-Sound s _ (received sock ready t e) sound = IfReturns-value (recvfrom-Sound sock s sound) e
  Step-Sound s _ (sent room random sock payload raddr result out t granted e) sound =
      IfReturns-value (sendto-Sound made is_loopback room granted random sock payload raddr s sound)
        e
  Step-Sound s _ (arrived room packet t granted e) sound =
      IfReturns-value (recv_netmsg-Sound room packet s granted sound) e
  Step-Sound s _ second_passed sound = timeout_round-Good s.sockets sound
  Step-Sound s _ (ticked room sock out t granted e) sound =
      IfReturns-value (udpx_tick-Sound made is_loopback room granted sock s sound) e

  -- Whatever calls, packets and ticks come in whatever order, if each packet that looks like a UDPX
  -- answer gets the memory that its length asks for, each socket owns memory exactly in the states in
  -- which data or a message wait there. Any other request for memory may fail.
  pub Reached-Sound : (t : SocketsState) → Reached t → Sound t
  Reached-Sound _ (start port kernel) = tt
  Reached-Sound _ (later s t reached step) = Step-Sound s t step (Reached-Sound s reached)

  -- In every state that calls, packets and ticks lead to, where each packet that looks like a UDPX
  -- answer gets the memory that its length asks for, a call of `sock_i8_recvfrom` on a socket returns:
  -- it has data or a timeout to report exactly where the state says so, and no ASSERT fails.
  pub recvfrom-ready :
      (sock : ℕ) (s : Socket) (t : SocketsState)
      → Reached t
      → find_socket sock t.sockets ≡ ok s
      → Returns (λ (ready, u). (ready ≡ is_ready s.state) × Sound u) (recvfrom sock t)
  unfolding recvfrom
  recvfrom-ready sock s t reached found =
      let sound = Reached-Sound t reached in
      let good = IfReturns-value (find_socket-Good sock t.sockets sound) found in
      let (out, is, fine) = Returns-value (recv_step-Good s good) in
      rw (found, good.dgram, ◌>>=◌, is)
        (returns (fine.1, set_socket-Good sock out.1 t.sockets fine.0 sound))
