-- ===== src/Sockets.antt =====
-- src/sockets.c: sockets for datagrams, and for UDPX, which asks for an answer to each message.
-- The list of the sockets, of src/list.c, is the list of their states with their descriptors in the
-- order of the list. A memory object that a socket owns is the bytes it holds, and -1 is `none`;
-- whether an allocation succeeds is an argument.
pub mod Options
pub mod Traffic
pub mod Timeouts
pub mod Owned
pub mod Receive
pub mod Reached
pub mod Unanswered
mod Tests
use sapphire_os.Prelude.{
  ltb, ◌==◌, if◌then◌else◌, bit, add16, ◌>>=◌, ◌>>◌, assert, Run, ok, out_of_bounds, out_of_fuel, ℕ,
  zero, suc, Bool, true, false, not, ◌&&◌, ◌||◌, Option, none, some, List, [], ◌∷◌, ◌++◌,
}
use sapphire_os.Ip.{Addr}
use sapphire_os.System.{Kernel}

-- `sock_addr_t`
pub record SockAddr : Type 0 where
  pub ipaddr : Addr
  pub port : ℕ

-- the states of a socket
pub data SockState : Type 0 where
  idle : SockState
  rx_waiting : SockState
  rx_data_pending : SockState
  rx_data_received : SockState
  timed_out : SockState
  wait_ack : SockState

-- the test for `SOCK_UDPX_STATE_WAIT_ACK`
abbrev pub is_waiting : SockState → Bool
is_waiting SockState.wait_ack = true
is_waiting SockState.idle = false
is_waiting SockState.rx_waiting = false
is_waiting SockState.rx_data_pending = false
is_waiting SockState.rx_data_received = false
is_waiting SockState.timed_out = false

-- the test for `SOCK_UDP_STATE_RX_WAITING`
abbrev pub is_receiving : SockState → Bool
is_receiving SockState.rx_waiting = true
is_receiving SockState.wait_ack = false
is_receiving SockState.idle = false
is_receiving SockState.rx_data_pending = false
is_receiving SockState.rx_data_received = false
is_receiving SockState.timed_out = false

-- `sock_state_dgram_t`, `sock_state_udpx_client_t` and `sock_state_udpx_server_t`
pub record Socket : Type 0 where
  pub type : ℕ
  pub options : ℕ
  pub state : SockState
  pub lport : ℕ
  pub handle : Option (List ℕ)
  pub raddr : SockAddr
  pub timer_setting : ℕ
  pub timer_current : ℕ
  pub msg_id : ℕ
  pub time_left : ℕ
  pub tries : ℕ
  pub ack_request : Bool

pub record SocketsState : Type 0 where
  pub sockets : List (ℕ × Socket)
  pub current_ephemeral_port : ℕ
  pub kernel : Kernel

-- `SOCK_DGRAM`, `SOCK_UDPX_CLIENT` and `SOCK_UDPX_SERVER`
abbrev pub sock_dgram : ℕ
sock_dgram = 0x04

abbrev pub sock_udpx_client : ℕ
sock_udpx_client = 0x14

abbrev pub sock_udpx_server : ℕ
sock_udpx_server = 0x24

-- `SOCK_IS_DGRAM`, `SOCK_IS_UDPX_CLIENT` and `SOCK_IS_UDPX_SERVER`
abbrev pub is_dgram : Socket → Bool
is_dgram s = bit s.type 2 == 1

abbrev pub is_udpx_client : Socket → Bool
is_udpx_client s = bit s.type 4 == 1

abbrev pub is_udpx_server : Socket → Bool
is_udpx_server s = bit s.type 5 == 1

-- `SOCK_EPHEMERAL_PORT_LOW` and `SOCK_EPHEMERAL_PORT_HIGH`
abbrev pub port_low : ℕ
port_low = 49152

abbrev pub port_high : ℕ
port_high = 65535

-- the state of a socket by its descriptor; one that is not there is an access outside the memory
unfoldable pub find_socket : ℕ → List (ℕ × Socket) → Run Socket
find_socket sock [] = out_of_bounds
find_socket sock ((d, s) ∷ rest) = elim (d == sock) [ true ↦ ok s | false ↦ find_socket sock rest ]

-- the sockets with a new state for one of them
unfoldable pub set_socket : ℕ → Socket → List (ℕ × Socket) → List (ℕ × Socket)
set_socket sock new [] = []
set_socket sock new ((d, s) ∷ rest) =
    let others = set_socket sock new rest in if d == sock then (d, new) ∷ rest else (d, s) ∷ others

-- `sock_b_port_in_use`
unfoldable pub port_in_use : ℕ → List (ℕ × Socket) → Bool
port_in_use port [] = false
port_in_use port ((d, s) ∷ rest) =
    let later = port_in_use port rest in if is_dgram s && (s.lport == port) then true else later

-- the port that `get_lport` tries after another
unfoldable pub next_port : ℕ → ℕ
next_port port =
    let next = add16 port 1 in
    if ltb next port_low then port_low else if next == port_high then port_low else next

-- `get_lport`, on fuel
unfoldable pub get_lport : ℕ → SocketsState → Run (ℕ × SocketsState)
get_lport zero s = out_of_fuel
get_lport (suc fuel) s =
    let port = next_port s.current_ephemeral_port in
    let t : SocketsState = record s { current_ephemeral_port = port } in
    elim (port_in_use port s.sockets) [ true ↦ get_lport fuel t | false ↦ ok (port, t) ]

-- the state that `sock_s_create` gives a socket, in memory that held `old`
unfoldable pub fresh_socket : ℕ → ℕ → Socket → Socket
fresh_socket type port old =
    let dgram : Socket = record old {
      type = type;
      options = 0;
      lport = port;
      handle = none;
      state = SockState.idle;
      timer_setting = 0;
      timer_current = 0;
    } in
    if is_udpx_client dgram
    then record dgram { msg_id = 0; time_left = 0; tries = 0 }
    else if is_udpx_server dgram
    then record dgram { msg_id = 0 }
    else dgram

-- `sock_s_create`; `ln` is the node that the list makes, if there is memory, and its bytes are `old`
unfoldable pub create : ℕ → ℕ → Option ℕ → Socket → SocketsState → Run (Option ℕ × SocketsState)
create fuel type ln old s = do
  assert ((type == sock_dgram) || (type == sock_udpx_client) || (type == sock_udpx_server))
  elim ln [
    | none ↦ ok (none, s)
    | some sock ↦ do
      (port, t) ← get_lport fuel s
      ok (some sock, record t { sockets = t.sockets ++ ((sock, fresh_socket type port old) ∷ []) })
  ]

-- the sockets without one of them
unfoldable pub remove_socket : ℕ → List (ℕ × Socket) → List (ℕ × Socket)
remove_socket sock [] = []
remove_socket sock ((d, s) ∷ rest) =
    let others = remove_socket sock rest in if d == sock then rest else (d, s) ∷ others

-- `sock_v_release`; the memory that the socket owns goes with it
unfoldable pub release : ℕ → SocketsState → Run SocketsState
release sock s = do
  state ← find_socket sock s.sockets
  ok (record s { sockets = remove_socket sock s.sockets })

-- `sock_v_bind`
unfoldable pub bind : ℕ → ℕ → SocketsState → Run SocketsState
bind sock port s = do
  state ← find_socket sock s.sockets
  assert (is_dgram state)
  assert (not (port_in_use port s.sockets))
  ok (record s { sockets = set_socket sock (record state { lport = port }) s.sockets })
