-- ===== src/Programs/Order/Tunnel.antt =====
-- The programs that forward connections or messages keep the order.
use Prim.Native.String.{String}
use cloudssh.Base.{
  ℕ, ◌&&◌, true, false, Option, none, some, List, [], ◌≡◌, refl, and_left, and_right,
}
use cloudssh.Base.Int.{ℤ, pos, minus_one, is_zero, is_minus_one}
use cloudssh.Base.Text.{codes}
use cloudssh.Api.{
  Sock, Host, Env, Prog, ◌>>◌, call, pure, goto, socket, connect, bind, listen, accept, close,
  setsockopt, set_blocking, direct_tcpip, forward_listen, forward_accept, forward_cancel,
  channel_open, channel_subsystem, session_disconnect,
}
use cloudssh.Programs.Start.{Main, arg, close_session, return_zero}
use cloudssh.Programs.Fetch.{option_arg}
use cloudssh.Programs.Tunnel.{wrapped, number_arg, open_forward, direct_tcpip_main}
use cloudssh.Programs.Remote.{
  Forwarded, nothing_open, accept_forward, cancel_listener, tcpip_forward_main, hello, rpc,
  reply_size, exchange, netconf_main,
}
use cloudssh.Programs.Order.{unit_label, Phase, Label, is_live, Follows}
use cloudssh.Programs.Order.Rules.{
  Leads, bind-Leads, ◌⨾◌, call-Leads, keep, either, pure-Leads, goto-Leads, exit-Leads,
  shutdown-Leads,
}
use cloudssh.Programs.Order.Steps.{start_library-Leads, close_session-Leads, return_zero-Leads}
use cloudssh.Programs.Order.Frame.{session_once}
use cloudssh.Programs.Order.Forwarding.{
  channel_label, connect_address-Leads, free_channel-trusted, free_channel-secured,
  login_by_list-Leads, nonzero-Leads, not_minus_one-Leads, good_address-Leads,
}
use cloudssh.Programs.Order.Relays.{
  Relays, direct_tcpip_loop-Leads, tcpip_forward_loop-Leads, netconf_write-Leads,
  netconf_read_until-Leads,
}

instance abbrev pub forwarded_label : Label Forwarded
forwarded_label = record { untrusted = λ f. is_zero f.channel && is_zero f.listener }

open_forward-Leads : (argv : List String) → Relays is_live (open_forward argv)
unfolding open_forward
open_forward-Leads argv =
    let address = arg 4 "127.0.0.1" argv in
    let port = wrapped 16 (number_arg 5 "2222" argv) in
    bind-Leads (keep (socket Sock.listen_sock) (λ z. refl)) (λ listensock.
      either (is_minus_one listensock) (exit-Leads minus_one refl) (pure-Leads listensock)
      ⨾ good_address-Leads (pos 0) address
      ⨾ keep (setsockopt Sock.listen_sock) (λ z. refl)
      ⨾ not_minus_one-Leads (pos 0) (bind Sock.listen_sock (Host.address address) port) (λ z. refl)
      ⨾ not_minus_one-Leads (pos 0) (listen Sock.listen_sock) (λ z. refl)
      ⨾ not_minus_one-Leads (pos 0) (accept Sock.listen_sock) (λ z. refl)
      ⨾ nonzero-Leads (pos 0)
          (direct_tcpip (arg 6 "localhost" argv) (wrapped 32 (number_arg 7 "22" argv))) (λ z. refl))

leave_by :
    {p : Phase} {m : Main ℤ}
    → Leads is_live p m (λ z. p)
    → Leads is_live p (call {J = Unit {0}} session_disconnect) (λ z. Phase.parted)
    → Leads is_live p
        (m >> close_session (call session_disconnect) >> return_zero)
        (λ z. Phase.finished)
leave_by freed parts =
    (freed ⨾ close_session-Leads (call session_disconnect) parts) ⨾ return_zero-Leads

-- Whatever is answered, example/direct_tcpip.c keeps the order of calls: no session before the socket is
-- connected, no question for the login methods and no login before the handshake, no channel and
-- no data before a login with result 0, and the channel is freed only if there is one, before the
-- session. It returns 0 only after disconnect, free, close and libssh2_exit in this order, and
-- another code only before the disconnect.
pub direct_tcpip_main-IsOrdered :
    (k : ℕ) (argv : List String) (env : Env)
    → Follows is_live (λ a. Phase.finished) (direct_tcpip_main k argv env [])
unfolding direct_tcpip_main
direct_tcpip_main-IsOrdered k argv env =
    let runs : Leads is_live Phase.fresh (direct_tcpip_main k argv) (λ a. Phase.finished) =
      start_library-Leads refl
      ⨾ connect_address-Leads (arg 1 "127.0.0.1" argv) 22 refl
      ⨾ session_once refl refl (
          shutdown-Leads {q = λ j. Phase.trusted} (λ j. refl)
            (login_by_list-Leads (pos 0) (option_arg 8 argv) (arg 2 "username" argv) (arg 3 "" argv)
                refl
              ⨾ bind-Leads (open_forward-Leads argv) (λ channel.
                keep (set_blocking false) (λ z. refl)
                ⨾ direct_tcpip_loop-Leads channel k
                ⨾ pure-Leads channel))
            (λ channel no_channel.
              leave_by
                ((keep (close Sock.local_sock) (λ z. refl)
                    ⨾ keep (close Sock.listen_sock) (λ z. refl))
                  ⨾ free_channel-secured channel no_channel)
                (call-Leads session_disconnect))
            (λ channel.
              leave_by
                ((keep (close Sock.local_sock) (λ z. refl)
                    ⨾ keep (close Sock.listen_sock) (λ z. refl))
                  ⨾ free_channel-trusted channel)
                (call-Leads session_disconnect))) in
    runs.follows env [] refl

accept_forward-Leads : (argv : List String) → Relays is_live (accept_forward argv)
unfolding accept_forward
accept_forward-Leads argv =
    let address = arg 6 "127.0.0.1" argv in
    bind-Leads
      (nonzero-Leads nothing_open
        (forward_listen (arg 4 "localhost" argv) (wrapped 32 (number_arg 5 "2222" argv)))
        (λ z. refl))
      (λ listener.
        let listening : Forwarded = record { channel = pos 0; listener = listener } in
        bind-Leads (nonzero-Leads listening forward_accept (λ z. refl)) (λ channel.
          let accepted : Forwarded = record { channel = channel; listener = listener } in
          not_minus_one-Leads accepted (socket Sock.local_sock) (λ z. refl)
          ⨾ good_address-Leads accepted address
          ⨾ not_minus_one-Leads accepted
              (connect Sock.local_sock (Host.address address) (wrapped 16 (number_arg 7 "22" argv)))
              (λ z. refl)
          ⨾ pure-Leads accepted))

cancel_listener-trusted :
    (listener : ℤ) → Leads is_live Phase.trusted (cancel_listener listener) (λ z. Phase.trusted)
unfolding cancel_listener
cancel_listener-trusted listener =
    either (is_zero listener) (pure-Leads (pos 0)) (keep forward_cancel (λ z. refl))

cancel_listener-secured :
    (listener : ℤ)
    → is_zero listener ≡ true
    → Leads is_live Phase.secured (cancel_listener listener) (λ z. Phase.secured)
unfolding cancel_listener
cancel_listener-secured listener none_open = rw none_open (pure-Leads (pos 0))

-- Whatever is answered, example/tcpip-forward.c keeps the order of calls: no session before the socket is
-- connected, no question for the login methods and no login before the handshake, no listener, no
-- channel and no data before a login with result 0, and the channel and the listener are released
-- only if they are there, before the session. It returns 0 only after disconnect, free, close and
-- libssh2_exit in this order, and another code only before the disconnect.
pub tcpip_forward_main-IsOrdered :
    (k : ℕ) (argv : List String) (env : Env)
    → Follows is_live (λ a. Phase.finished) (tcpip_forward_main k argv env [])
unfolding tcpip_forward_main
tcpip_forward_main-IsOrdered k argv env =
    let user = arg 2 "username" argv in
    let password = arg 3 "" argv in
    let runs : Leads is_live Phase.fresh (tcpip_forward_main k argv) (λ a. Phase.finished) =
      start_library-Leads refl
      ⨾ connect_address-Leads (arg 1 "127.0.0.1" argv) 22 refl
      ⨾ session_once refl refl (
          shutdown-Leads {q = λ j. Phase.trusted} (λ j. refl)
            (login_by_list-Leads nothing_open (option_arg 8 argv) user password refl
              ⨾ bind-Leads (accept_forward-Leads argv) (λ opened.
                keep (set_blocking false) (λ z. refl)
                ⨾ tcpip_forward_loop-Leads opened k
                ⨾ pure-Leads opened))
            (λ opened no_handle.
              leave_by
                ((keep (close Sock.local_sock) (λ z. refl)
                    ⨾ free_channel-secured opened.channel (and_left _ _ no_handle))
                  ⨾ cancel_listener-secured opened.listener (and_right _ _ no_handle))
                (call-Leads session_disconnect))
            (λ opened.
              leave_by
                ((keep (close Sock.local_sock) (λ z. refl) ⨾ free_channel-trusted opened.channel)
                  ⨾ cancel_listener-trusted opened.listener)
                (call-Leads session_disconnect))) in
    runs.follows env [] refl

exchange-Leads :
    (channel : ℤ) (k : ℕ) (request : List ℕ) (endtag : String)
    → Relays is_live (exchange channel k request endtag)
unfolding exchange
exchange-Leads channel k request endtag = bind-Leads (netconf_write-Leads k request) (λ rc.
    either (is_minus_one rc) (goto-Leads channel refl) (pure-Leads rc)
    ⨾ bind-Leads (netconf_read_until-Leads k (codes endtag) reply_size) received_reply)
  where
    received_reply :
        (len : Option (List ℕ))
        → Relays {A = List ℕ} is_live
            (elim len as (λ o. Prog ℤ (List ℕ)) [ none ↦ goto channel | some reply ↦ pure reply ])
    received_reply none = goto-Leads channel refl
    received_reply (some reply) = pure-Leads reply

-- Whatever is answered, example/subsystem_netconf.c keeps the order of calls: no session before the socket
-- is connected, no question for the login methods and no login before the handshake, no channel,
-- no subsystem and no message before a login with result 0, and the channel is freed only if there
-- is one, before the session. It returns 0 only after disconnect, free, close and libssh2_exit in
-- this order, and another code only before the disconnect.
pub netconf_main-IsOrdered :
    (k : ℕ) (argv : List String) (env : Env)
    → Follows is_live (λ a. Phase.finished) (netconf_main k argv env [])
unfolding netconf_main
netconf_main-IsOrdered k argv env =
    let user = arg 2 "username" argv in
    let password = arg 3 "" argv in
    let runs : Leads is_live Phase.fresh (netconf_main k argv) (λ a. Phase.finished) =
      start_library-Leads refl
      ⨾ connect_address-Leads (arg 1 "127.0.0.1" argv) 830 refl
      ⨾ session_once refl refl (
          shutdown-Leads {q = λ j. Phase.trusted} (λ j. refl)
            (login_by_list-Leads (pos 0) (option_arg 4 argv) user password refl
              ⨾ bind-Leads (nonzero-Leads (pos 0) channel_open (λ z. refl)) (λ channel.
                bind-Leads (keep (channel_subsystem "netconf") (λ z. refl)) (λ rc.
                  either (is_zero rc) (pure-Leads rc) (goto-Leads channel refl)
                  ⨾ exchange-Leads channel k hello "</hello>"
                  ⨾ exchange-Leads channel k rpc "</rpc-reply>"
                  ⨾ pure-Leads channel)))
            (λ channel no_channel.
              leave_by (free_channel-secured channel no_channel) (call-Leads session_disconnect))
            (λ channel. leave_by (free_channel-trusted channel) (call-Leads session_disconnect))) in
    runs.follows env [] refl
