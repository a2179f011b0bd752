-- ===== src/Sockets/Timeouts.antt =====
-- The threads that count the time of the sockets: `timeout_thread` and `udpx_timeout_thread` of
-- src/sockets.c, a round of each.
use sapphire_os.Prelude.{
  ltb, ◌==◌, if◌then◌else◌, ◌>>=◌, Run, ok, assert_failed, ℕ, ◌+◌, ◌-◌, ◌*◌, ◌/◌, ◌%◌, ◌^◌, Bool,
  not, ◌&&◌, Option, none, some, List, [], ◌∷◌,
}
use sapphire_os.Ip.{Addr}
use sapphire_os.Sockets.{
  Socket, SocketsState, SockState, is_dgram, is_udpx_client, is_waiting, is_receiving, find_socket,
  set_socket,
}
use sapphire_os.Sockets.Traffic.{Message, Packet, Queued, not_queued, max_tries, transmit}

-- one socket in a round of `timeout_thread`
unfoldable pub count_down : Socket → Socket
count_down s =
    let current = s.timer_current - 1 in
    if is_dgram s
    then (if not (s.timer_setting == 0) && (current == 0) && is_receiving s.state
        then record s { timer_current = current; state = SockState.timed_out }
        else record s { timer_current = current })
    else s

-- a round of `timeout_thread`
unfoldable pub timeout_round : List (ℕ × Socket) → List (ℕ × Socket)
timeout_round [] = []
timeout_round ((d, s) ∷ rest) = (d, count_down s) ∷ timeout_round rest

-- what a round of `udpx_timeout_thread` does with a socket: it changes it, or it sends its message
-- again from the changed socket
pub data Tick : Type 0 where
  changed : Socket → Tick
  resend : Socket → Tick

-- `UDPX_INITIAL_TIMEOUT / SOCK_UDPX_TIMER_TICK_MS`
abbrev pub initial_ticks : ℕ
initial_ticks = 500 / 100

-- the time until the next try, as a `uint8_t`
abbrev pub wait_time : ℕ → ℕ
wait_time tries = initial_ticks * (max_tries + 2 ^ 8 - tries) % 2 ^ 8

unfoldable pub tick : Socket → Tick
tick s =
    if is_udpx_client s && is_waiting s.state
    then (if ltb 0 s.time_left
        then changed (record s { time_left = s.time_left - 1 })
        else if ltb 0 ((s.tries + 255) % 2 ^ 8)
        then resend (record s { tries = (s.tries + 255) % 2 ^ 8 })
        else changed (record s {
          tries = (s.tries + 255) % 2 ^ 8;
          handle = none;
          state = SockState.timed_out;
        }))
    else changed s

module _ (made : Message → Option Packet) (is_loopback : Addr → Bool) where
  -- the body of the loop of `udpx_timeout_thread`, for one socket
  unfoldable pub udpx_tick : (ℕ → Bool) → ℕ → SocketsState → Run (Queued × SocketsState)
  udpx_tick room sock t = do
    s ← find_socket sock t.sockets
    elim (tick s) [
      | changed new ↦ ok (not_queued, record t { sockets = set_socket sock new t.sockets })
      | resend new ↦ elim new.handle [
        | none ↦ assert_failed
        | some payload ↦ do
          (sent, out, u) ←
              transmit made is_loopback room sock payload
                (record t { sockets = set_socket sock new t.sockets })
          after ← find_socket sock u.sockets
          ok (
            out,
            record u {
              sockets =
                  set_socket sock (record after { time_left = wait_time after.tries }) u.sockets;
            },
          )
      ]
    ]

  -- a round of `udpx_timeout_thread`, over the descriptors of the list: what is put in the queue
  unfoldable pub udpx_round : (ℕ → Bool) → List ℕ → SocketsState → Run (List Queued × SocketsState)
  udpx_round room [] t = ok ([], t)
  udpx_round room (sock ∷ rest) t = do
    (out, u) ← udpx_tick room sock t
    (later, v) ← udpx_round room rest u
    ok (out ∷ later, v)
