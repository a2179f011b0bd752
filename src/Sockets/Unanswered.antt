-- ===== src/Sockets/Unanswered.antt =====
-- A UDPX message with no answer: the ticks of `udpx_timeout_thread` of src/sockets.c for one socket.
use sapphire_os.Prelude.{
  ltb, ◌==◌, if◌then◌else◌, length, ◌>>=◌, Run, Returns, ok, returns, ℕ, zero, suc, ◌+◌, ◌-◌, ◌%◌,
  ◌^◌, ◌<◌, ◌≡◌, refl, ap, Bool, true, false, Option, none, some, List, [], ◌∷◌, arith,
}
use sapphire_os.Ip.{Addr}
use sapphire_os.System.{Kernel}
use sapphire_os.Sockets.{
  Socket, SocketsState, SockState, is_dgram, is_udpx_client, find_socket, set_socket,
}
use sapphire_os.Sockets.Traffic.{
  Message, Packet, Queued, queued, not_queued, no_security, no_wireless, has, message_of, max_tries,
  transmit, sendto,
}
use sapphire_os.Sockets.Timeouts.{changed, resend, tick, udpx_tick, wait_time}

-- the number of messages among the results
abbrev pub counted : Queued → ℕ → ℕ
counted (queued message flags) n = suc n
counted not_queued n = n

abbrev pub sent_count : List Queued → ℕ
sent_count [] = 0
sent_count (out ∷ rest) = counted out (sent_count rest)

module _ (made : Message → Option Packet) (is_loopback : Addr → Bool) (room : ℕ → Bool) where
  -- a number of ticks for one socket
  abbrev pub ticks : ℕ → ℕ → SocketsState → Run (List Queued × SocketsState)
  ticks zero sock t = ok ([], t)
  ticks (suc n) sock t = udpx_tick made is_loopback room sock t >>= λ (out, u).
      ticks n sock u >>= λ (later, v). ok (out ∷ later, v)

  module _ (sock : ℕ) (s : Socket) (payload : List ℕ) (port : ℕ) (kernel : Kernel)
      (client : is_udpx_client s ≡ true) (kind : is_dgram s ≡ true)
      (away : is_loopback s.raddr.ipaddr ≡ false)
      (makes : (m : Message) → (p : Packet) × (made m ≡ some p)) where
    -- from one state of the socket to another, in `n` ticks that send `c` messages
    Goes : ℕ → ℕ → SocketsState → SocketsState → Type 0
    Goes n c t u = (outs : List Queued) × (ticks n sock t ≡ ok (outs, u)) × (sent_count outs ≡ c)

    Goes-first :
        (n c : ℕ) (t u v : SocketsState) (out : Queued)
        → udpx_tick made is_loopback room sock t ≡ ok (out, u)
        → Goes n c u v
        → Goes (suc n) (counted out c) t v
    unfolding Goes
    Goes-first n c t u v out one (outs, rest, count) =
        (out ∷ outs, rw (one, ◌>>=◌, rest) refl, ap (counted out) count)

    -- the socket while it waits for an answer, and the state with this socket only
    abbrev pub held : ℕ → ℕ → Socket
    held time tries = record s {
      handle = some payload;
      state = SockState.wait_ack;
      time_left = time;
      tries = tries;
    }

    abbrev pub only : Socket → SocketsState
    only u = record { sockets = (sock, u) ∷ []; current_ephemeral_port = port; kernel = kernel }

    found : (u : Socket) → find_socket sock ((sock, u) ∷ []) ≡ ok u
    unfolding find_socket
    found u = let same : (sock == sock) ≡ true = ground arith in rw (find_socket, same) refl

    replaced : (u v : Socket) → set_socket sock v ((sock, u) ∷ []) ≡ ((sock, v) ∷ [])
    unfolding set_socket
    replaced u v = let same : (sock == sock) ≡ true = ground arith in rw (set_socket, same) refl

    -- a tick while there is time
    tick-counts : (time tries : ℕ) → tick (held (suc time) tries) ≡ changed (held time tries)
    unfolding tick
    tick-counts time tries =
        let later : ltb 0 (suc time) ≡ true = ground arith in
        let less : suc time - 1 ≡ time = omega arith in rw (tick, client, later, less) refl

    tick-waits :
        (time tries : ℕ)
        → udpx_tick made is_loopback room sock (only (held (suc time) tries))
          ≡ ok (not_queued, only (held time tries))
    unfolding udpx_tick
    tick-waits time tries =
        rw
          (
            udpx_tick,
            found (held (suc time) tries),
            ◌>>=◌,
            tick-counts time tries,
            replaced (held (suc time) tries) (held time tries),
          )
          refl

    -- a tick when the time is over and there are tries left
    tick-tries : (k : ℕ) → k < 4 → tick (held 0 (suc (suc k))) ≡ resend (held 0 (suc k))
    unfolding tick
    tick-tries k l =
        let fewer : (suc (suc k) + 255) % 2 ^ 8 ≡ suc k = omega arith in
        let more : ltb 0 (suc k) ≡ true = ground arith in rw (tick, client, fewer, more) refl

    message_of-client :
        (time tries : ℕ) → (message_of (held time tries) payload).1 ≡ held time tries
    unfolding message_of
    message_of-client time tries = rw (message_of, client) refl

    transmit-queued :
        (time tries : ℕ)
        → (m : Message) × (flags : ℕ) × (transmit made is_loopback room sock payload
              (only (held time tries))
            ≡ ok (true, queued m flags, only (held time tries)))
    unfolding transmit
    transmit-queued time tries =
        let m = (message_of (held time tries) payload).0 in
        (
          m,
          (if has s.options no_security then 1 else 0)
              + (if has s.options no_wireless then 2 else 0),
          rw
              (
                transmit,
                found (held time tries),
                ◌>>=◌,
                kind,
                (makes m).1,
                away,
                message_of-client time tries,
                replaced (held time tries) (held time tries),
              )
              refl,
        )

    tick-sends :
        (k : ℕ)
        → k < 4
        → (m : Message) × (flags : ℕ) × (udpx_tick made is_loopback room sock
              (only (held 0 (suc (suc k))))
            ≡ ok (queued m flags, only (held (wait_time (suc k)) (suc k))))
    unfolding udpx_tick
    tick-sends k l =
        let (m, flags, sent) = transmit-queued 0 (suc k) in
        (
          m,
          flags,
          rw
              (
                udpx_tick,
                found (held 0 (suc (suc k))),
                ◌>>=◌,
                tick-tries k l,
                replaced (held 0 (suc (suc k))) (held 0 (suc k)),
                sent,
                found (held 0 (suc k)),
                replaced (held 0 (suc k)) (held (wait_time (suc k)) (suc k)),
              )
              refl,
        )

    -- the socket when the tries are over
    abbrev pub given_up : Socket
    given_up = record s { handle = none; state = SockState.timed_out; time_left = 0; tries = 0 }

    tick-ends : tick (held 0 1) ≡ changed given_up
    unfolding tick
    tick-ends = rw (tick, client) refl

    tick-gives_up :
        udpx_tick made is_loopback room sock (only (held 0 1)) ≡ ok (not_queued, only given_up)
    unfolding udpx_tick
    tick-gives_up =
        rw (udpx_tick, found (held 0 1), ◌>>=◌, tick-ends, replaced (held 0 1) given_up) refl

    Goes-waits :
        (time n c tries : ℕ) (v : SocketsState)
        → Goes n c (only (held 0 tries)) v
        → Goes (time + n) c (only (held time tries)) v
    unfolding Goes
    Goes-waits zero n c tries v goes = let same : zero + n ≡ n = omega arith in rw same goes
    Goes-waits (suc time) n c tries v goes =
        let step : suc time + n ≡ suc (time + n) = omega arith in
        rw step (
          Goes-first (time + n) c (only (held (suc time) tries)) (only (held time tries)) v
            not_queued (tick-waits time tries) (Goes-waits time n c tries v goes))

    Goes-tries :
        (k n c : ℕ) (v : SocketsState)
        → k < 4
        → Goes n c (only (held 0 (suc k))) v
        → Goes (suc (wait_time (suc k) + n)) (suc c) (only (held 0 (suc (suc k)))) v
    unfolding Goes
    Goes-tries k n c v l goes =
        let (m, flags, sent) = tick-sends k l in
        Goes-first (wait_time (suc k) + n) c (only (held 0 (suc (suc k))))
          (only (held (wait_time (suc k)) (suc k))) v (queued m flags) sent
          (Goes-waits (wait_time (suc k)) n c (suc k) v goes)

    gives_up : Goes 55 4 (only (held 0 max_tries)) (only given_up)
    unfolding Goes
    gives_up = Goes-tries 3 49 3 (only given_up) (omega arith) (
        Goes-tries 2 38 2 (only given_up) (omega arith) (
          Goes-tries 1 22 1 (only given_up) (omega arith) (
            Goes-tries 0 1 0 (only given_up) (omega arith) (
              Goes-first 0 0 (only (held 0 1)) (only given_up) (only given_up) not_queued
                tick-gives_up ([], refl, refl)))))

    -- For the only socket, a client of UDPX with a remote address that is not the node's own: a message
    -- of `sock_i16_sendto` that gets its memory, is never answered, and for which there is always a
    -- netmsg, is sent four times within 55 ticks of 100 ms; then the socket has timed out, and its memory is free.
    pub sendto-given_up :
        (random old : ℕ)
        → s.msg_id ≡ random % 2 ^ 8
        → room (length payload) ≡ true
        → Returns
            (λ (sent, out, t).
              (sent ≡ true)
              × Returns
                  (λ (outs, u). (sent_count outs ≡ 4) × (u ≡ only given_up))
                  (ticks 55 sock t))
            (sendto made is_loopback room random sock payload none
              (only (record s { msg_id = old })))
    unfolding sendto Goes
    sendto-given_up random old named memory =
        let before : Socket = record s { msg_id = old } in
        let (outs, run, count) = gives_up in
        rw
          (sendto, found before, ◌>>=◌, client, memory, ← named, replaced before (held 0 max_tries))
          (returns (refl, rw run (returns (count, refl))))
