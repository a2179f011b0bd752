-- ===== src/Sockets/Owned.antt =====
-- The memory that sockets own: src/sockets.c.
use sapphire_os.Prelude.{
  ◌==◌, Bool-cases, Option-cases, split_at, sub16, within, IfReturns-bind, IfReturns-any, Returns,
  IfReturns, if_ok, if_outside, returns, ℕ, ◌+◌, ◌-◌, ◌≡◌, refl, ap, ◌∙◌, ◌⊎◌, inl, inr, Bool, true,
  false, not, ◌&&◌, Option, none, some, List, [], ◌∷◌, ◌++◌,
}
use sapphire_os.System.{stats_increment}
use sapphire_os.System.Stat
use sapphire_os.Sockets.{
  Socket, SocketsState, SockState, is_dgram, is_udpx_client, is_udpx_server, is_waiting,
  is_receiving, find_socket, set_socket, remove_socket,
}
use sapphire_os.Sockets.Traffic.{
  Packet, is_answer, is_request, udpx_flags, udpx_id, has, accept, store, recv_step,
}
use sapphire_os.Sockets.Timeouts.{count_down, timeout_round}

-- the states in which a socket owns memory
abbrev pub owns : SockState → Bool
owns SockState.rx_data_pending = true
owns SockState.rx_data_received = true
owns SockState.wait_ack = true
owns SockState.idle = false
owns SockState.rx_waiting = false
owns SockState.timed_out = false

-- the states in which a call of `sock_i8_recvfrom` gives the status 0
abbrev pub is_ready : SockState → Bool
is_ready SockState.rx_data_pending = true
is_ready SockState.timed_out = true
is_ready SockState.idle = false
is_ready SockState.rx_waiting = false
is_ready SockState.rx_data_received = false
is_ready SockState.wait_ack = false

abbrev pub is_some : Option (List ℕ) → Bool
is_some none = false
is_some (some bytes) = true

-- a socket for datagrams that owns memory exactly in these states
pub record Good (s : Socket) : Type 0 where
  pub dgram : is_dgram s ≡ true
  pub owned : is_some s.handle ≡ owns s.state

abbrev pub AllGood : List (ℕ × Socket) → Type 0
AllGood [] = Unit
AllGood ((d, s) ∷ rest) = Good s × AllGood rest

pub find_socket-Good :
    (sock : ℕ) (all : List (ℕ × Socket)) → AllGood all → IfReturns Good (find_socket sock all)
unfolding find_socket
find_socket-Good sock [] good = if_outside
find_socket-Good sock ((d, s) ∷ rest) good = elim (Bool-cases (d == sock)) [
  | inl here ↦ rw (find_socket, here) (if_ok good.0)
  | inr there ↦ rw (find_socket, there) (find_socket-Good sock rest good.1)
]

pub set_socket-Good :
    (sock : ℕ) (new : Socket) (all : List (ℕ × Socket))
    → Good new
    → AllGood all
    → AllGood (set_socket sock new all)
unfolding set_socket
set_socket-Good sock new [] fine good = tt
set_socket-Good sock new ((d, s) ∷ rest) fine good = elim (Bool-cases (d == sock)) [
  | inl here ↦ rw (set_socket, here) (fine, good.1)
  | inr there ↦ rw (set_socket, there) (good.0, set_socket-Good sock new rest fine good.1)
]

pub remove_socket-Good :
    (sock : ℕ) (all : List (ℕ × Socket)) → AllGood all → AllGood (remove_socket sock all)
unfolding remove_socket
remove_socket-Good sock [] good = tt
remove_socket-Good sock ((d, s) ∷ rest) good = elim (Bool-cases (d == sock)) [
  | inl here ↦ rw (remove_socket, here) (good.1)
  | inr there ↦ rw (remove_socket, there) (good.0, remove_socket-Good sock rest good.1)
]

pub append-Good : (xs ys : List (ℕ × Socket)) → AllGood xs → AllGood ys → AllGood (xs ++ ys)
append-Good [] ys one two = two
append-Good ((d, s) ∷ xs) ys one two = (one.0, append-Good xs ys one.1 two)

pub timeout_round-Good : (all : List (ℕ × Socket)) → AllGood all → AllGood (timeout_round all)
unfolding timeout_round count_down
timeout_round-Good [] good = tt
timeout_round-Good ((d, s) ∷ rest) good = (counted s good.0, timeout_round-Good rest good.1)
  where
    waits : (state : SockState) → is_receiving state ≡ true → owns state ≡ false
    waits SockState.rx_waiting e = refl
    waits SockState.idle e = cc
    waits SockState.rx_data_pending e = cc
    waits SockState.rx_data_received e = cc
    waits SockState.timed_out e = cc
    waits SockState.wait_ack e = cc

    last : (a b c : Bool) → (a && b && c) ≡ true → c ≡ true
    last true true c e = e
    last true false c e = cc
    last false b c e = cc

    counted : (s : Socket) → Good s → Good (count_down s)
    counted s good =
        let current = s.timer_current - 1 in
        elim (Bool-cases (not (s.timer_setting == 0) && (current == 0) && is_receiving s.state)) [
          | inl over ↦
              rw (count_down, good.dgram, over)
                (record {
                  dgram = good.dgram;
                  owned =
                      good.owned
                      ∙ waits s.state (last (not (s.timer_setting == 0)) (current == 0) _ over);
                })
          | inr on ↦
              rw (count_down, good.dgram, on) (record { dgram = good.dgram; owned = good.owned })
        ]

first : (a b c : Bool) → (a && b && c) ≡ true → a ≡ true
first true b c e = refl
first false b c e = e

-- A message is thrown away, or the socket that takes it has its memory as before, or is a client
-- that waited for this answer and gave its message back.
pub accept-cases :
    (packet : Packet) (s : Socket)
    → Good s
    → (accept packet s ≡ none)
      ⊎ ((new : Socket) × (start : ℕ) × (accept packet s ≡ some (new, start))
          × (is_dgram new ≡ true)
          × ((is_some new.handle ≡ owns new.state)
              ⊎ ((new.handle ≡ none) × (start ≡ 2) × (is_answer (udpx_flags packet.body) ≡ true))))
unfolding accept
accept-cases packet s good = elim (Bool-cases (is_udpx_client s)) [
  | inl client ↦
      elim (Bool-cases (
        is_answer (udpx_flags packet.body)
        && (s.msg_id == udpx_id packet.body)
        && is_waiting s.state)) [
          | inl answer ↦ inr (
            record s { handle = none },
            2,
            rw (accept, client, answer) refl,
            good.dgram,
            inr (refl, refl, first (is_answer (udpx_flags packet.body)) _ _ answer),
          )
          | inr other ↦ inl (rw (accept, client, other) refl)
        ]
  | inr not_client ↦ elim (Bool-cases (is_udpx_server s)) [
    | inr plain ↦ inr (s, 0, rw (accept, not_client, plain) refl, good.dgram, inl good.owned)
    | inl server ↦ elim (Bool-cases (is_request (udpx_flags packet.body))) [
      | inr other ↦ inl (rw (accept, not_client, server, other) refl)
      | inl request ↦ inr (
        record s { msg_id = udpx_id packet.body; ack_request = has (udpx_flags packet.body) 4 },
        2,
        rw (accept, not_client, server, request) refl,
        good.dgram,
        inl good.owned,
      )
    ]
  ]
]

-- a call of `sock_i8_recvfrom` on a sound socket never meets memory that is missing
pub recv_step-Good :
    (s : Socket)
    → Good s
    → Returns (λ (ready, new). Good new × (ready ≡ is_ready s.state)) (recv_step s)
unfolding recv_step
recv_step-Good s good = by_state s.state refl
  where
    by_state :
        (state : SockState)
        → s.state ≡ state
        → Returns (λ (ready, new). Good new × (ready ≡ is_ready s.state)) (recv_step s)
    by_state SockState.wait_ack e = rw (recv_step, e) (returns (good, refl))
    by_state SockState.rx_waiting e = rw (recv_step, e) (returns (good, refl))
    by_state SockState.idle e =
        rw (recv_step, e)
          (returns (record { dgram = good.dgram; owned = good.owned ∙ ap owns e }, refl))
    by_state SockState.timed_out e =
        rw (recv_step, e)
          (returns (record { dgram = good.dgram; owned = good.owned ∙ ap owns e }, refl))
    by_state SockState.rx_data_received e =
        rw (recv_step, e) (returns (record { dgram = good.dgram; owned = refl }, refl))
    by_state SockState.rx_data_pending e = elim (Option-cases s.handle) [
      | inl empty ↦
          let there : is_some s.handle ≡ true = good.owned ∙ ap owns e in
          let gone : is_some s.handle ≡ false = ap is_some empty in cc
      | inr (bytes, held) ↦
          rw (recv_step, e, held)
            (returns (record { dgram = good.dgram; owned = good.owned ∙ ap owns e }, refl))
    ]

module _ (t : SocketsState) where
  as_before :
      (granted : Bool) (s : Socket) (bytes : List ℕ)
      → s.handle ≡ some bytes
      → (is_some s.handle ≡ owns s.state) ⊎ ((s.handle ≡ none) × (granted ≡ true))
      → is_some s.handle ≡ owns s.state
  as_before granted s bytes held (inl same) = same
  as_before granted s bytes held (inr (empty, there)) = cc

  refused :
      (granted : Bool) (s : Socket)
      → granted ≡ false
      → (is_some s.handle ≡ owns s.state) ⊎ ((s.handle ≡ none) × (granted ≡ true))
      → is_some s.handle ≡ owns s.state
  refused granted s no_memory (inl same) = same
  refused granted s no_memory (inr (empty, there)) = cc

  pub store-Good :
      (room : ℕ → Bool) (packet : Packet) (start sock : ℕ) (s : Socket)
      → is_dgram s ≡ true
      → (is_some s.handle ≡ owns s.state)
        ⊎ ((s.handle ≡ none) × (room (sub16 packet.udp_length (8 + start)) ≡ true))
      → AllGood t.sockets
      → IfReturns (λ u. AllGood u.sockets) (store room packet start sock s t)
  unfolding store
  store-Good room packet start sock s kind owned good =
      let granted = room (sub16 packet.udp_length (8 + start)) in
      elim (Option-cases s.handle) [
        | inl empty ↦ elim (Bool-cases granted) [
          | inr no_memory ↦
              rw (store, empty, no_memory)
                (if_ok (
                  set_socket-Good sock s t.sockets
                    (record { dgram = kind; owned = refused granted s no_memory owned }) good))
          | inl memory ↦
              rw (store, empty, memory)
                (IfReturns-bind (IfReturns-any (within (split_at start packet.body)))
                  λ (front, payload) u.
                    IfReturns-bind
                      (IfReturns-any
                        (within (split_at (sub16 packet.udp_length (8 + start)) payload)))
                      λ (stored, rest) v. if_ok (
                        set_socket-Good sock _ t.sockets (record { dgram = kind; owned = refl })
                          good))
        ]
        | inr (bytes, held) ↦
            rw (store, held)
              (IfReturns-bind
                (IfReturns-any (stats_increment Stat.sockets_packets_dropped t.kernel))
                λ k u. if_ok (
                  set_socket-Good sock s t.sockets
                    (record { dgram = kind; owned = as_before granted s bytes held owned }) good))
      ]
