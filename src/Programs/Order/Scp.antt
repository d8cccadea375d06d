-- ===== src/Programs/Order/Scp.antt =====
-- The programs on SCP keep the order, from `main` on.
use Prim.Native.String.{String}
use cloudssh.Base.{ℕ, true, List, [], refl}
use cloudssh.Base.Int.{pos, pos_part}
use cloudssh.Api.{
  Env, file_size, stat, scp_recv, scp_send, channel_free, channel_send_eof, channel_wait_eof,
  channel_wait_closed, call,
}
use cloudssh.Programs.Start.{arg, host_of, retry}
use cloudssh.Programs.Scp.{scp_main, scp_nonblock_main, scp_write_main, scp_write_nonblock_main}
use cloudssh.Programs.Order.{unit_label, Phase, is_early, Follows}
use cloudssh.Programs.Order.Rules.{Leads, bind-Leads, ◌⨾◌, keep, pure-Leads}
use cloudssh.Programs.Order.Steps.{
  retry_keep, waitsocket-Leads, obtain-Leads, require-Leads, login-Leads, call_login, retry_login,
  start_library-Leads, open_local-Leads, connect_to-Leads, connect_checked-Leads,
}
use cloudssh.Programs.Order.Frame.{
  session_once, session_nonblocking, shutdown_once, shutdown_file, shutdown_retry,
}
use cloudssh.Programs.Order.Loops.{
  scp_write_data-Leads, scp_write_nonblock_data-Leads, scp_loop-Leads, scp_nonblock_loop-Leads,
}

-- Whatever the server answers, example/scp.c keeps the order of calls: no session before the
-- socket is connected, no login before the handshake, nothing else before a login with result 0.
-- It returns 0 only after disconnect, free, close and libssh2_exit in this order, and another code
-- only before the handshake is done.
pub scp_main-IsOrdered :
    (k : ℕ) (argv : List String) (env : Env)
    → Follows is_early (λ a. Phase.finished) (scp_main k argv env [])
unfolding scp_main
scp_main-IsOrdered k argv env =
    let runs : Leads is_early Phase.fresh (scp_main k argv) (λ a. Phase.finished) =
      start_library-Leads refl
      ⨾ connect_to-Leads (host_of argv) refl
      ⨾ session_once refl refl (
          shutdown_once (
            login-Leads call true (arg 2 "username" argv) (arg 3 "password" argv)
              (call_login (arg 2 "username" argv) (arg 3 "password" argv))
            ⨾ require-Leads (scp_recv (arg 4 "/tmp/TEST" argv)) (λ z. refl)
            ⨾ bind-Leads (keep file_size (λ z. refl)) (λ size.
              scp_loop-Leads (pos_part size) k 0
              ⨾ keep channel_free (λ z. refl)
              ⨾ pure-Leads tt))) in
    runs.follows env [] refl

-- Whatever the server answers, example/scp_nonblock.c keeps the order of calls: no session before the
-- socket is connected, no login before the handshake, nothing else before a login with result 0.
-- It returns 0 only after disconnect, free, close and libssh2_exit in this order, and another code
-- only before the handshake is done.
pub scp_nonblock_main-IsOrdered :
    (k : ℕ) (argv : List String) (env : Env)
    → Follows is_early (λ a. Phase.finished) (scp_nonblock_main k argv env [])
unfolding scp_nonblock_main
scp_nonblock_main-IsOrdered k argv env =
    let runs : Leads is_early Phase.fresh (scp_nonblock_main k argv) (λ a. Phase.finished) =
      start_library-Leads refl
      ⨾ connect_to-Leads (host_of argv) refl
      ⨾ session_nonblocking k refl refl (
          shutdown_once (
            login-Leads (λ c. retry c k) true (arg 2 "username" argv) (arg 3 "password" argv)
              (retry_login k (arg 2 "username" argv) (arg 3 "password" argv))
            ⨾ obtain-Leads (scp_recv (arg 4 "/tmp/TEST" argv)) k (λ z. refl) waitsocket-Leads
            ⨾ bind-Leads (keep file_size (λ z. refl)) (λ size.
              scp_nonblock_loop-Leads (pos_part size) k 0
              ⨾ keep channel_free (λ z. refl)
              ⨾ pure-Leads tt))) in
    runs.follows env [] refl

-- Whatever the server answers, example/scp_write.c keeps the order of calls: no session before the
-- socket is connected, no login before the handshake, nothing else before a login with result 0.
-- It returns 0 only after disconnect, free, close and libssh2_exit in this order, and another code
-- only before the handshake is done.
pub scp_write_main-IsOrdered :
    (k : ℕ) (argv : List String) (env : Env)
    → Follows is_early (λ a. Phase.finished) (scp_write_main k argv env [])
unfolding scp_write_main
scp_write_main-IsOrdered k argv env =
    let runs : Leads is_early Phase.fresh (scp_write_main k argv) (λ a. Phase.finished) =
      start_library-Leads refl
      ⨾ open_local-Leads (arg 4 "scp_write.c" argv) refl
      ⨾ keep (stat (arg 4 "scp_write.c" argv)) (λ z. refl)
      ⨾ connect_checked-Leads (host_of argv) refl
      ⨾ session_once refl refl (
          shutdown_file (
            login-Leads call true (arg 2 "username" argv) (arg 3 "password" argv)
              (call_login (arg 2 "username" argv) (arg 3 "password" argv))
            ⨾ require-Leads (scp_send (arg 5 "/tmp/TEST" argv)) (λ z. refl)
            ⨾ scp_write_data-Leads k (pos 0)
            ⨾ keep channel_send_eof (λ z. refl)
            ⨾ keep channel_wait_eof (λ z. refl)
            ⨾ keep channel_wait_closed (λ z. refl)
            ⨾ keep channel_free (λ z. refl)
            ⨾ pure-Leads tt)) in
    runs.follows env [] refl

-- Whatever the server answers, example/scp_write_nonblock.c keeps the order of calls: no session before the
-- socket is connected, no login before the handshake, nothing else before a login with result 0.
-- It returns 0 only after disconnect, free, close and libssh2_exit in this order, and another code
-- only before the handshake is done.
pub scp_write_nonblock_main-IsOrdered :
    (k : ℕ) (argv : List String) (env : Env)
    → Follows is_early (λ a. Phase.finished) (scp_write_nonblock_main k argv env [])
unfolding scp_write_nonblock_main
scp_write_nonblock_main-IsOrdered k argv env =
    let runs : Leads is_early Phase.fresh (scp_write_nonblock_main k argv) (λ a. Phase.finished) =
      start_library-Leads refl
      ⨾ open_local-Leads (arg 4 "scp_write.c" argv) refl
      ⨾ keep (stat (arg 4 "scp_write.c" argv)) (λ z. refl)
      ⨾ connect_to-Leads (host_of argv) refl
      ⨾ session_nonblocking k refl refl (
          shutdown_retry k (
            login-Leads (λ c. retry c k) true (arg 2 "username" argv) (arg 3 "password" argv)
              (retry_login k (arg 2 "username" argv) (arg 3 "password" argv))
            ⨾ obtain-Leads (scp_send (arg 5 "/tmp/TEST" argv)) k (λ z. refl) (pure-Leads (pos 0))
            ⨾ scp_write_nonblock_data-Leads k (pos 0)
            ⨾ retry_keep channel_send_eof k refl (λ z. refl)
            ⨾ retry_keep channel_wait_eof k refl (λ z. refl)
            ⨾ retry_keep channel_wait_closed k refl (λ z. refl)
            ⨾ keep channel_free (λ z. refl)
            ⨾ pure-Leads tt)) in
    runs.follows env [] refl
