-- ===== src/Programs/Order/Sftp.antt =====
-- The programs on SFTP keep the order, from `main` on.
use Prim.Native.String.{String}
use cloudssh.Base.{ℕ, true, false, ◌+◌, List, [], refl}
use cloudssh.Base.Int.{pos, is_neg, pos_part}
use cloudssh.Api.{
  Stream, Env, fclose, set_blocking, sftp_init, sftp_open, sftp_close, sftp_shutdown, sftp_mkdir,
  sftp_fstat, sftp_seek, file_size, call,
}
use cloudssh.Programs.Start.{arg, host_of, retry}
use cloudssh.Programs.Sftp.{
  fxf_read, fxf_write, fxf_creat, fxf_trunc, sftp_nonblock_main, sftp_mkdir_main,
  sftp_mkdir_nonblock_main, sftp_write_main, sftp_append_main, sftp_write_nonblock_main,
  sftp_write_sliding_main,
}
use cloudssh.Programs.Order.{unit_label, Phase, is_early, Follows}
use cloudssh.Programs.Order.Rules.{Leads, bind-Leads, ◌⨾◌, keep, either, pure-Leads, goto-Leads}
use cloudssh.Programs.Order.Steps.{
  retry_keep, waitsocket-Leads, obtain-Leads, require-Leads, login-Leads, call_login, retry_login,
  start_library-Leads, open_local-Leads, connect_to-Leads,
}
use cloudssh.Programs.Order.Frame.{
  session_once, session_blocking, session_nonblocking, shutdown_once, shutdown_file, shutdown_retry,
}
use cloudssh.Programs.Order.Loops.{
  sftp_write_data-Leads, sftp_append_data-Leads, sftp_write_nonblock_data-Leads,
  sftp_write_sliding_data-Leads, sftp_nonblock_data-Leads,
}

-- Whatever the server answers, example/sftp_nonblock.c keeps the order of calls: no session before the
-- socket is connected, no login before the handshake, nothing else before a login with result 0.
-- It returns 0 only after disconnect, free, close and libssh2_exit in this order, and another code
-- only before the handshake is done.
pub sftp_nonblock_main-IsOrdered :
    (k : ℕ) (argv : List String) (env : Env)
    → Follows is_early (λ a. Phase.finished) (sftp_nonblock_main k argv env [])
unfolding sftp_nonblock_main
sftp_nonblock_main-IsOrdered k argv env =
    let runs : Leads is_early Phase.fresh (sftp_nonblock_main k argv) (λ a. Phase.finished) =
      start_library-Leads refl
      ⨾ connect_to-Leads (host_of argv) refl
      ⨾ session_nonblocking k refl refl (
          shutdown_retry k (
            login-Leads (λ c. retry c k) true (arg 2 "username" argv) (arg 3 "password" argv)
              (retry_login k (arg 2 "username" argv) (arg 3 "password" argv))
            ⨾ obtain-Leads sftp_init k (λ z. refl) waitsocket-Leads
            ⨾ obtain-Leads (sftp_open (arg 4 "/tmp/TEST" argv) fxf_read) k (λ z. refl)
                waitsocket-Leads
            ⨾ sftp_nonblock_data-Leads k
            ⨾ keep sftp_close (λ z. refl)
            ⨾ keep sftp_shutdown (λ z. refl)
            ⨾ pure-Leads tt)) in
    runs.follows env [] refl

-- Whatever the server answers, example/sftp_mkdir.c keeps the order of calls: no session before the
-- socket is connected, no login before the handshake, nothing else before a login with result 0.
-- It returns 0 only after disconnect, free, close and libssh2_exit in this order, and another code
-- only before the handshake is done.
pub sftp_mkdir_main-IsOrdered :
    (k : ℕ) (argv : List String) (env : Env)
    → Follows is_early (λ a. Phase.finished) (sftp_mkdir_main k argv env [])
unfolding sftp_mkdir_main
sftp_mkdir_main-IsOrdered k argv env =
    let runs : Leads is_early Phase.fresh (sftp_mkdir_main k argv) (λ a. Phase.finished) =
      start_library-Leads refl
      ⨾ connect_to-Leads (host_of argv) refl
      ⨾ session_once refl refl (
          shutdown_once (
            login-Leads call true (arg 2 "username" argv) (arg 3 "password" argv)
              (call_login (arg 2 "username" argv) (arg 3 "password" argv))
            ⨾ require-Leads sftp_init (λ z. refl)
            ⨾ keep (set_blocking true) (λ z. refl)
            ⨾ keep (sftp_mkdir (arg 4 "/tmp/sftp_mkdir" argv)) (λ z. refl)
            ⨾ keep sftp_shutdown (λ z. refl)
            ⨾ pure-Leads tt)) in
    runs.follows env [] refl

-- Whatever the server answers, example/sftp_mkdir_nonblock.c keeps the order of calls: no session before the
-- socket is connected, no login before the handshake, nothing else before a login with result 0.
-- It returns 0 only after disconnect, free, close and libssh2_exit in this order, and another code
-- only before the handshake is done.
pub sftp_mkdir_nonblock_main-IsOrdered :
    (k : ℕ) (argv : List String) (env : Env)
    → Follows is_early (λ a. Phase.finished) (sftp_mkdir_nonblock_main k argv env [])
unfolding sftp_mkdir_nonblock_main
sftp_mkdir_nonblock_main-IsOrdered k argv env =
    let runs : Leads is_early Phase.fresh (sftp_mkdir_nonblock_main k argv) (λ a. Phase.finished) =
      start_library-Leads refl
      ⨾ connect_to-Leads (host_of argv) refl
      ⨾ session_once refl refl (
          shutdown_once (
            login-Leads call true (arg 2 "username" argv) (arg 3 "password" argv)
              (call_login (arg 2 "username" argv) (arg 3 "password" argv))
            ⨾ require-Leads sftp_init (λ z. refl)
            ⨾ keep (set_blocking false) (λ z. refl)
            ⨾ retry_keep (sftp_mkdir (arg 4 "/tmp/sftp_mkdir_nonblock" argv)) k refl (λ z. refl)
            ⨾ keep sftp_shutdown (λ z. refl)
            ⨾ pure-Leads tt)) in
    runs.follows env [] refl

-- Whatever the server answers, example/sftp_write.c keeps the order of calls: no session before the
-- socket is connected, no login before the handshake, nothing else before a login with result 0.
-- It returns 0 only after disconnect, free, close and libssh2_exit in this order, and another code
-- only before the handshake is done.
pub sftp_write_main-IsOrdered :
    (k : ℕ) (argv : List String) (env : Env)
    → Follows is_early (λ a. Phase.finished) (sftp_write_main k argv env [])
unfolding sftp_write_main
sftp_write_main-IsOrdered k argv env =
    let runs : Leads is_early Phase.fresh (sftp_write_main k argv) (λ a. Phase.finished) =
      start_library-Leads refl
      ⨾ open_local-Leads (arg 4 "sftp_write.c" argv) refl
      ⨾ connect_to-Leads (host_of argv) refl
      ⨾ session_blocking refl refl (
          shutdown_file (
            login-Leads call true (arg 2 "username" argv) (arg 3 "password" argv)
              (call_login (arg 2 "username" argv) (arg 3 "password" argv))
            ⨾ require-Leads sftp_init (λ z. refl)
            ⨾ require-Leads (sftp_open (arg 5 "/tmp/TEST" argv) (fxf_write + fxf_creat + fxf_trunc))
                (λ z. refl)
            ⨾ sftp_write_data-Leads k (pos 0)
            ⨾ keep sftp_close (λ z. refl)
            ⨾ keep sftp_shutdown (λ z. refl)
            ⨾ pure-Leads tt)) in
    runs.follows env [] refl

-- Whatever the server answers, example/sftp_append.c keeps the order of calls: no session before the
-- socket is connected, no login before the handshake, nothing else before a login with result 0.
-- It returns 0 only after disconnect, free, close and libssh2_exit in this order, and another code
-- only before the handshake is done.
pub sftp_append_main-IsOrdered :
    (k : ℕ) (argv : List String) (env : Env)
    → Follows is_early (λ a. Phase.finished) (sftp_append_main k argv env [])
unfolding sftp_append_main
sftp_append_main-IsOrdered k argv env =
    let runs : Leads is_early Phase.fresh (sftp_append_main k argv) (λ a. Phase.finished) =
      start_library-Leads refl
      ⨾ open_local-Leads (arg 4 "sftp_write.c" argv) refl
      ⨾ connect_to-Leads (host_of argv) refl
      ⨾ session_blocking refl refl (
          shutdown_file (
            login-Leads call true (arg 2 "username" argv) (arg 3 "password" argv)
              (call_login (arg 2 "username" argv) (arg 3 "password" argv))
            ⨾ require-Leads sftp_init (λ z. refl)
            ⨾ require-Leads (sftp_open (arg 5 "/tmp/TEST" argv) (fxf_write + fxf_read)) (λ z. refl)
            ⨾ bind-Leads (keep sftp_fstat (λ z. refl)) (λ rc.
              either (is_neg rc) (goto-Leads tt refl) (pure-Leads rc)
              ⨾ bind-Leads (keep file_size (λ z. refl)) (λ filesize.
                keep (sftp_seek (pos_part filesize)) (λ z. refl)
                ⨾ sftp_append_data-Leads k (pos 0)
                ⨾ keep sftp_close (λ z. refl)
                ⨾ keep sftp_shutdown (λ z. refl)
                ⨾ pure-Leads tt)))) in
    runs.follows env [] refl

-- Whatever the server answers, example/sftp_write_nonblock.c keeps the order of calls: no session before the
-- socket is connected, no login before the handshake, nothing else before a login with result 0.
-- It returns 0 only after disconnect, free, close and libssh2_exit in this order, and another code
-- only before the handshake is done.
pub sftp_write_nonblock_main-IsOrdered :
    (k : ℕ) (argv : List String) (env : Env)
    → Follows is_early (λ a. Phase.finished) (sftp_write_nonblock_main k argv env [])
unfolding sftp_write_nonblock_main
sftp_write_nonblock_main-IsOrdered k argv env =
    let runs : Leads is_early Phase.fresh (sftp_write_nonblock_main k argv) (λ a. Phase.finished) =
      start_library-Leads refl
      ⨾ open_local-Leads (arg 4 "sftp_write_nonblock.c" argv) refl
      ⨾ connect_to-Leads (host_of argv) refl
      ⨾ session_nonblocking k refl refl (
          shutdown_retry k (
            login-Leads (λ c. retry c k) true (arg 2 "username" argv) (arg 3 "password" argv)
              (retry_login k (arg 2 "username" argv) (arg 3 "password" argv))
            ⨾ obtain-Leads sftp_init k (λ z. refl) (pure-Leads (pos 0))
            ⨾ obtain-Leads
                (sftp_open (arg 5 "/tmp/sftp_write_nonblock.c" argv)
                  (fxf_write + fxf_creat + fxf_trunc))
                k (λ z. refl) (pure-Leads (pos 0))
            ⨾ sftp_write_nonblock_data-Leads k (pos 0)
            ⨾ keep (fclose Stream.local_file) (λ z. refl)
            ⨾ keep sftp_close (λ z. refl)
            ⨾ keep sftp_shutdown (λ z. refl)
            ⨾ pure-Leads tt)) in
    runs.follows env [] refl

-- Whatever the server answers, example/sftp_write_sliding.c keeps the order of calls: no session before the
-- socket is connected, no login before the handshake, nothing else before a login with result 0.
-- It returns 0 only after disconnect, free, close and libssh2_exit in this order, and another code
-- only before the handshake is done.
pub sftp_write_sliding_main-IsOrdered :
    (k : ℕ) (argv : List String) (env : Env)
    → Follows is_early (λ a. Phase.finished) (sftp_write_sliding_main k argv env [])
unfolding sftp_write_sliding_main
sftp_write_sliding_main-IsOrdered k argv env =
    let runs : Leads is_early Phase.fresh (sftp_write_sliding_main k argv) (λ a. Phase.finished) =
      start_library-Leads refl
      ⨾ open_local-Leads (arg 4 "sftp_write_nonblock.c" argv) refl
      ⨾ connect_to-Leads (host_of argv) refl
      ⨾ session_nonblocking k refl refl (
          shutdown_retry k (
            login-Leads (λ c. retry c k) true (arg 2 "username" argv) (arg 3 "password" argv)
              (retry_login k (arg 2 "username" argv) (arg 3 "password" argv))
            ⨾ obtain-Leads sftp_init k (λ z. refl) (pure-Leads (pos 0))
            ⨾ obtain-Leads
                (sftp_open (arg 5 "/tmp/sftp_write_nonblock.c" argv)
                  (fxf_write + fxf_creat + fxf_trunc))
                k (λ z. refl) (pure-Leads (pos 0))
            ⨾ sftp_write_sliding_data-Leads k
            ⨾ keep (fclose Stream.local_file) (λ z. refl)
            ⨾ keep sftp_close (λ z. refl)
            ⨾ keep sftp_shutdown (λ z. refl)
            ⨾ pure-Leads tt)) in
    runs.follows env [] refl
