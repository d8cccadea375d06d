-- ===== src/Programs/Remote.antt =====
-- example/tcpip-forward.c and subsystem_netconf.c from the arguments to the exit code. They start and log in
-- as direct_tcpip.c does.
use Prim.Native.String.{String}
use cloudssh.Base.{ℕ, false, none, some, List, if◌then◌else◌}
use cloudssh.Base.Int.{ℤ, pos, is_zero, is_minus_one}
use cloudssh.Base.Text.{codes}
use cloudssh.Api.{
  Sock, Host, Prog, call, pure, goto, at_shutdown, ◌>>=◌, ◌>>◌, socket, connect, close,
  set_blocking, session_handshake, session_disconnect, forward_listen, forward_accept,
  forward_cancel, channel_open, channel_subsystem,
}
use cloudssh.Forward.{tcpip_forward_loop}
use cloudssh.Netconf.{netconf_write, netconf_read_until}
use cloudssh.Programs.Start.{
  Main, arg, start_library, new_session, secure, show_fingerprint, close_session, return_zero,
}
use cloudssh.Programs.Fetch.{option_arg}
use cloudssh.Programs.Tunnel.{
  connect_address, wrapped, number_arg, login_by_list, nonzero, not_minus_one, good_address,
  free_channel,
}

-- The variables `channel` and `listener` that the label reads.
pub record Forwarded : Type 0 where
  pub channel : ℤ
  pub listener : ℤ

abbrev pub nothing_open : Forwarded
nothing_open = record { channel = pos 0; listener = pos 0 }

-- forward_tunnel's set-up: the listener, the channel of the first connection, and the local socket.
-- The port that the server is asked for is an `int`.
unfoldable pub accept_forward : List String → Prog Forwarded Forwarded
unfolding nonzero not_minus_one good_address
accept_forward argv = do
  listener ←
      nonzero nothing_open
        (forward_listen (arg 4 "localhost" argv) (wrapped 32 (number_arg 5 "2222" argv)))
  let listening : Forwarded = record { channel = pos 0; listener = listener }
  channel ← nonzero listening forward_accept
  let accepted : Forwarded = record { channel = channel; listener = listener }
  not_minus_one accepted (socket Sock.local_sock)
  good_address accepted (arg 6 "127.0.0.1" argv)
  not_minus_one accepted (
      connect Sock.local_sock (Host.address (arg 6 "127.0.0.1" argv))
        (wrapped 16 (number_arg 7 "22" argv)))
  pure accepted

-- if (listener) libssh2_channel_forward_cancel(listener);
unfoldable pub cancel_listener : ℤ → Main ℤ
cancel_listener listener = if is_zero listener then pure (pos 0) else call forward_cancel

unfoldable pub tcpip_forward_main : ℕ → List String → Main ℤ
unfolding connect_address login_by_list accept_forward free_channel cancel_listener
tcpip_forward_main k argv = do
  start_library
  connect_address (arg 1 "127.0.0.1" argv) 22
  new_session
  secure (call session_handshake)
  show_fingerprint
  at_shutdown
      (do
        login_by_list nothing_open (option_arg 8 argv) (arg 2 "username" argv) (arg 3 "" argv)
        opened ← accept_forward argv
        call (set_blocking false)
        tcpip_forward_loop opened k
        pure opened)
      (λ opened.
        call (close Sock.local_sock)
        >> free_channel opened.channel
        >> cancel_listener opened.listener
        >> close_session (call session_disconnect)
        >> return_zero)

-- The two messages of subsystem_netconf.c, and the ends of the replies to them.
abbrev pub hello : List ℕ
hello =
    codes
      "<?xml version=\"1.0\" encoding=\"UTF-8\"?>\n<hello><capabilities><capability>urn:ietf:params:xml:ns:netconf:base:1.0</capability></capabilities></hello>\n]]>]]>\n"

abbrev pub rpc : List ℕ
rpc =
    codes
      "<?xml version=\"1.0\" encoding=\"UTF-8\"?>\n<rpc xmlns=\"urn:ietf:params:xml:ns:netconf:base:1.0\"><get-interface-information><terse/></get-interface-information></rpc>\n]]>]]>\n"

-- sizeof(buf)
abbrev pub reply_size : ℕ
reply_size = 1048576

-- One request and its reply, of which only the outcome counts.
unfoldable pub exchange : ℤ → ℕ → List ℕ → String → Prog ℤ (List ℕ)
unfolding netconf_write netconf_read_until
exchange channel k request endtag = do
  rc ← netconf_write k request
  if is_minus_one rc then goto channel else pure rc
  len ← netconf_read_until k (codes endtag) reply_size
  elim len [ none ↦ goto channel | some reply ↦ pure reply ]

unfoldable pub netconf_main : ℕ → List String → Main ℤ
unfolding connect_address login_by_list exchange free_channel nonzero
netconf_main k argv = do
  start_library
  connect_address (arg 1 "127.0.0.1" argv) 830
  new_session
  secure (call session_handshake)
  show_fingerprint
  at_shutdown
      (do
        login_by_list (pos 0) (option_arg 4 argv) (arg 2 "username" argv) (arg 3 "" argv)
        channel ← nonzero (pos 0) channel_open
        rc ← call (channel_subsystem "netconf")
        if is_zero rc then pure rc else goto channel
        exchange channel k hello "</hello>"
        exchange channel k rpc "</rpc-reply>"
        pure channel)
      (λ channel. free_channel channel >> close_session (call session_disconnect) >> return_zero)
