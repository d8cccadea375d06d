-- ===== src/Programs/Tunnel.antt =====
-- The programs that forward connections or messages: example/direct_tcpip.c, tcpip-forward.c and
-- subsystem_netconf.c. They share their start and their choice of the login method.
use Prim.Native.String.{String}
use cloudssh.Base.{
  ℕ, ◌+◌, ◌-◌, ◌%◌, ◌^◌, ◌==◌, Bool, false, Option, none, some, List, if◌then◌else◌,
}
use cloudssh.Base.Int.{ℤ, pos, negsuc, minus_one, is_zero, is_minus_one}
use cloudssh.Base.Text.{codes, atoi}
use cloudssh.Auth.{offers, bit, narrow}
use cloudssh.Api.{
  Stream, Sock, Host, Method, Call, bytes, failed, Prog, call, read, pure, goto, exit, fault,
  at_shutdown, ◌>>=◌, ◌>>◌, socket, inet_addr, connect, close, setsockopt, bind, listen, accept,
  set_blocking, session_handshake, session_disconnect, userauth, direct_tcpip, channel_free,
}
use cloudssh.Forward.{direct_tcpip_loop}
use cloudssh.Programs.Start.{
  Main, arg, start_library, new_session, secure, show_fingerprint, close_session, return_zero,
}
use cloudssh.Programs.Fetch.{option_arg}

-- inet_addr(…) == INADDR_NONE
abbrev pub is_none_address : ℤ → Bool
is_none_address (pos n) = n == 4294967295
is_none_address (negsuc n) = false

-- The socket to the server, by an address that is checked.
unfoldable pub connect_address : String → ℕ → Main ℤ
connect_address server_ip port = do
  sock ← call (socket Sock.ssh_sock)
  if is_minus_one sock then exit minus_one else pure sock
  addr ← call (inet_addr server_ip)
  if is_none_address addr then exit minus_one else pure addr
  rc ← call (connect Sock.ssh_sock (Host.address server_ip) port)
  if is_zero rc then pure sock else exit minus_one

-- An `int` of the arguments, as a port number in 16 bits and as an `unsigned int`.
abbrev pub wrapped : ℕ → ℤ → ℕ
wrapped w (pos n) = n % 2 ^ w
wrapped w (negsuc n) = 2 ^ w - 1 - n % 2 ^ w

abbrev pub number_arg : ℕ → String → List String → ℤ
number_arg n default argv = atoi (codes (arg n default argv))

-- The bits of `auth`: AUTH_PASSWORD is 1 and AUTH_PUBLICKEY is 2.
unfoldable pub two_flags : List ℕ → ℕ
unfolding offers
two_flags text =
    (if offers "password" text then 1 else 0) + (if offers "publickey" text then 2 else 0)

unfoldable pub prefer_two : Option String → ℕ → ℕ
prefer_two none auth = auth
prefer_two (some option) auth = narrow option 2 "-k" (narrow option 1 "-p" auth)

unfoldable pub choose_two : ℕ → Option Method
choose_two auth =
    if bit auth 1 then some Method.password else if bit auth 2 then some Method.publickey else none

-- What the option at the end of the arguments asks for, and the server's list.
unfoldable pub selected_two : Option String → List ℕ → Option Method
unfolding two_flags prefer_two choose_two
selected_two option text = choose_two (prefer_two option (two_flags text))

module _ {J : Type 0} (j : J) where
  unfoldable pub try_one : Option Method → String → String → Prog J ℤ
  try_one none username password = goto j
  try_one (some m) username password = do
    rc ← call (userauth m username password)
    if is_zero rc then pure rc else goto j

  unfoldable pub login_by_list : Option String → String → String → Prog J ℤ
  unfolding try_one selected_two
  login_by_list option username password = do
    userauthlist ← read Stream.auth_methods 0
    elim userauthlist [
      | bytes text ↦ try_one (selected_two option text) username password
      | failed n ↦ fault
    ]

  -- c; on the value 0 or on -1: goto shutdown.
  unfoldable pub nonzero : Call → Prog J ℤ
  nonzero c = do z ← call c; if is_zero z then goto j else pure z

  unfoldable pub not_minus_one : Call → Prog J ℤ
  not_minus_one c = do z ← call c; if is_minus_one z then goto j else pure z

  unfoldable pub good_address : String → Prog J ℤ
  good_address ip = do z ← call (inet_addr ip); if is_none_address z then goto j else pure z

-- direct_tcpip.c, from the listening socket to the channel. A jump leaves with `channel` NULL.
unfoldable pub open_forward : List String → Prog ℤ ℤ
unfolding nonzero not_minus_one good_address
open_forward argv = do
  listensock ← call (socket Sock.listen_sock)
  if is_minus_one listensock then exit minus_one else pure listensock
  good_address (pos 0) (arg 4 "127.0.0.1" argv)
  call (setsockopt Sock.listen_sock)
  not_minus_one (pos 0) (
      bind Sock.listen_sock (Host.address (arg 4 "127.0.0.1" argv))
        (wrapped 16 (number_arg 5 "2222" argv)))
  not_minus_one (pos 0) (listen Sock.listen_sock)
  not_minus_one (pos 0) (accept Sock.listen_sock)
  nonzero (pos 0) (direct_tcpip (arg 6 "localhost" argv) (wrapped 32 (number_arg 7 "22" argv)))

-- if (channel) libssh2_channel_free(channel);
unfoldable pub free_channel : ℤ → Main ℤ
free_channel channel = if is_zero channel then pure (pos 0) else call channel_free

unfoldable pub direct_tcpip_main : ℕ → List String → Main ℤ
unfolding login_by_list open_forward free_channel connect_address
direct_tcpip_main k argv = do
  start_library
  connect_address (arg 1 "127.0.0.1" argv) 22
  new_session
  secure (call session_handshake)
  show_fingerprint
  at_shutdown
      (do
        login_by_list (pos 0) (option_arg 8 argv) (arg 2 "username" argv) (arg 3 "" argv)
        channel ← open_forward argv
        call (set_blocking false)
        direct_tcpip_loop channel k
        pure channel)
      (λ channel.
        call (close Sock.local_sock)
        >> call (close Sock.listen_sock)
        >> free_channel channel
        >> close_session (call session_disconnect)
        >> return_zero)
