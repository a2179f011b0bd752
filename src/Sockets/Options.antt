-- ===== src/Sockets/Options.antt =====
-- What is set and read of one socket: src/sockets.c.
use sapphire_os.Prelude.{
  ltb, leb, if◌then◌else◌, length, minus_one, ℤ, ◌>>=◌, ◌>>◌, assert, Run, pos, ok, assert_failed,
  ℕ, Bool, true, false, none, some, List,
}
use sapphire_os.Sockets.{Socket, SockAddr, SocketsState, is_dgram, find_socket, set_socket}

-- `SOCK_MAXIMUM_TIMEOUT`, in seconds
abbrev pub maximum_timeout : ℕ
maximum_timeout = 15

-- `NETMSG_MAX_MESSAGES` and `SOCK_MEM_BUSY_THRESHOLD`
abbrev pub mem_busy_threshold : ℕ
mem_busy_threshold = 1024

-- a change of the state of a socket for datagrams
abbrev pub change : ℕ → (Socket → Socket) → SocketsState → Run SocketsState
change sock f s = do
  state ← find_socket sock s.sockets
  assert (is_dgram state)
  ok (record s { sockets = set_socket sock (f state) s.sockets })

-- `sock_v_set_options`
unfoldable pub set_options : ℕ → ℕ → SocketsState → Run SocketsState
set_options sock options s = do
  state ← find_socket sock s.sockets
  ok (record s { sockets = set_socket sock (record state { options = options }) s.sockets })

-- `sock_v_set_timeout`
unfoldable pub set_timeout : ℕ → ℕ → SocketsState → Run SocketsState
set_timeout sock timeout s =
    let setting = if ltb maximum_timeout timeout then maximum_timeout else timeout in
    change sock (λ state. record state { timer_setting = setting; timer_current = 0 }) s

-- `sock_v_get_raddr`
unfoldable pub get_raddr : ℕ → SocketsState → Run SockAddr
get_raddr sock s = do state ← find_socket sock s.sockets; assert (is_dgram state); ok state.raddr

-- `sock_v_set_raddr`
unfoldable pub set_raddr : ℕ → SockAddr → SocketsState → Run SocketsState
set_raddr sock raddr s = change sock (λ state. record state { raddr = raddr }) s

-- `sock_u16_get_lport`
unfoldable pub lport_of : ℕ → SocketsState → Run ℕ
lport_of sock s = do state ← find_socket sock s.sockets; assert (is_dgram state); ok state.lport

-- `sock_i16_get_bytes_read`
unfoldable pub get_bytes_read : ℕ → SocketsState → Run ℤ
get_bytes_read sock s = do
  state ← find_socket sock s.sockets
  assert (is_dgram state)
  ok (elim state.handle [ none ↦ minus_one | some bytes ↦ pos (length bytes) ])

-- `sock_vp_get_data`
unfoldable pub get_data : ℕ → SocketsState → Run (List ℕ)
get_data sock s = do
  state ← find_socket sock s.sockets
  assert (is_dgram state)
  elim state.handle [ none ↦ assert_failed | some bytes ↦ ok bytes ]

-- `sock_b_busy`, on the number of messages and the free memory
unfoldable pub busy : ℕ → ℕ → ℕ → Bool
busy max_messages messages free_memory =
    if leb max_messages messages
    then false
    else if ltb free_memory mem_busy_threshold
    then false
    else true
