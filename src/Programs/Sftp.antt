-- ===== src/Programs/Sftp.antt =====
-- The programs on SFTP: example/sftp_nonblock.c, sftp_write.c, sftp_append.c,
-- sftp_write_nonblock.c, sftp_write_sliding.c, sftp_mkdir.c and sftp_mkdir_nonblock.c.
use Prim.Native.String.{String}
use cloudssh.Base.{ℕ, ◌+◌, true, false, List, if◌then◌else◌}
use cloudssh.Base.Int.{ℤ, pos, is_neg, pos_part}
use cloudssh.Api.{
  Stream, fclose, session_handshake, session_disconnect, set_blocking, sftp_init, sftp_shutdown,
  sftp_close, sftp_fstat, sftp_open, sftp_mkdir, sftp_seek, file_size, pure, goto, call,
  at_shutdown, ◌>>=◌, ◌>>◌, waitsocket,
}
use cloudssh.Upload.{sftp_write_data, sftp_append_data, sftp_write_nonblock_data}
use cloudssh.Sliding.{sftp_write_sliding_data}
use cloudssh.Download.{sftp_nonblock_data}
use cloudssh.Programs.Start.{
  arg, host_of, Main, retry, obtain, require, start_library, open_local, connect_to, new_session,
  secure, show_fingerprint, login, close_session, return_zero,
}

abbrev pub fxf_read : ℕ
fxf_read = 1

abbrev pub fxf_write : ℕ
fxf_write = 2

abbrev pub fxf_creat : ℕ
fxf_creat = 8

abbrev pub fxf_trunc : ℕ
fxf_trunc = 16

unfoldable pub sftp_nonblock_main : ℕ → List String → Main ℤ
sftp_nonblock_main k argv = do
  start_library
  connect_to (host_of argv)
  new_session
  call (set_blocking false)
  secure (retry session_handshake k)
  show_fingerprint
  at_shutdown
      (do
        login (λ c. retry c k) true (arg 2 "username" argv) (arg 3 "password" argv)
        obtain waitsocket sftp_init k
        obtain waitsocket (sftp_open (arg 4 "/tmp/TEST" argv) fxf_read) k
        sftp_nonblock_data k
        call sftp_close
        call sftp_shutdown
        pure tt)
      (λ u. close_session (retry session_disconnect k) >> return_zero)

unfoldable pub sftp_mkdir_main : ℕ → List String → Main ℤ
sftp_mkdir_main k argv = do
  start_library
  connect_to (host_of argv)
  new_session
  secure (call session_handshake)
  show_fingerprint
  at_shutdown
      (do
        login call true (arg 2 "username" argv) (arg 3 "password" argv)
        require sftp_init
        call (set_blocking true)
        call (sftp_mkdir (arg 4 "/tmp/sftp_mkdir" argv))
        call sftp_shutdown
        pure tt)
      (λ u. close_session (call session_disconnect) >> return_zero)

unfoldable pub sftp_mkdir_nonblock_main : ℕ → List String → Main ℤ
sftp_mkdir_nonblock_main k argv = do
  start_library
  connect_to (host_of argv)
  new_session
  secure (call session_handshake)
  show_fingerprint
  at_shutdown
      (do
        login call true (arg 2 "username" argv) (arg 3 "password" argv)
        require sftp_init
        call (set_blocking false)
        retry (sftp_mkdir (arg 4 "/tmp/sftp_mkdir_nonblock" argv)) k
        call sftp_shutdown
        pure tt)
      (λ u. close_session (call session_disconnect) >> return_zero)

unfoldable pub sftp_write_main : ℕ → List String → Main ℤ
sftp_write_main k argv = do
  start_library
  open_local (arg 4 "sftp_write.c" argv)
  connect_to (host_of argv)
  new_session
  call (set_blocking true)
  secure (call session_handshake)
  show_fingerprint
  at_shutdown
      (do
        login call true (arg 2 "username" argv) (arg 3 "password" argv)
        require sftp_init
        require (sftp_open (arg 5 "/tmp/TEST" argv) (fxf_write + fxf_creat + fxf_trunc))
        sftp_write_data k (pos 0)
        call sftp_close
        call sftp_shutdown
        pure tt)
      (λ u.
        close_session (call session_disconnect) >> call (fclose Stream.local_file) >> return_zero)

-- The attributes that `libssh2_sftp_fstat_ex` fills in are read as a call of their own.
unfoldable pub sftp_append_main : ℕ → List String → Main ℤ
sftp_append_main k argv = do
  start_library
  open_local (arg 4 "sftp_write.c" argv)
  connect_to (host_of argv)
  new_session
  call (set_blocking true)
  secure (call session_handshake)
  show_fingerprint
  at_shutdown
      (do
        login call true (arg 2 "username" argv) (arg 3 "password" argv)
        require sftp_init
        require (sftp_open (arg 5 "/tmp/TEST" argv) (fxf_write + fxf_read))
        rc ← call sftp_fstat
        if is_neg rc then goto tt else pure rc
        filesize ← call file_size
        call (sftp_seek (pos_part filesize))
        sftp_append_data k (pos 0)
        call sftp_close
        call sftp_shutdown
        pure tt)
      (λ u.
        close_session (call session_disconnect) >> call (fclose Stream.local_file) >> return_zero)

unfoldable pub sftp_write_nonblock_main : ℕ → List String → Main ℤ
sftp_write_nonblock_main k argv = do
  start_library
  open_local (arg 4 "sftp_write_nonblock.c" argv)
  connect_to (host_of argv)
  new_session
  call (set_blocking false)
  secure (retry session_handshake k)
  show_fingerprint
  at_shutdown
      (do
        login (λ c. retry c k) true (arg 2 "username" argv) (arg 3 "password" argv)
        obtain (pure (pos 0)) sftp_init k
        obtain (pure (pos 0))
            (sftp_open (arg 5 "/tmp/sftp_write_nonblock.c" argv)
              (fxf_write + fxf_creat + fxf_trunc))
            k
        sftp_write_nonblock_data k (pos 0)
        call (fclose Stream.local_file)
        call sftp_close
        call sftp_shutdown
        pure tt)
      (λ u. close_session (retry session_disconnect k) >> return_zero)

unfoldable pub sftp_write_sliding_main : ℕ → List String → Main ℤ
sftp_write_sliding_main k argv = do
  start_library
  open_local (arg 4 "sftp_write_nonblock.c" argv)
  connect_to (host_of argv)
  new_session
  call (set_blocking false)
  secure (retry session_handshake k)
  show_fingerprint
  at_shutdown
      (do
        login (λ c. retry c k) true (arg 2 "username" argv) (arg 3 "password" argv)
        obtain (pure (pos 0)) sftp_init k
        obtain (pure (pos 0))
            (sftp_open (arg 5 "/tmp/sftp_write_nonblock.c" argv)
              (fxf_write + fxf_creat + fxf_trunc))
            k
        sftp_write_sliding_data k
        call (fclose Stream.local_file)
        call sftp_close
        call sftp_shutdown
        pure tt)
      (λ u. close_session (retry session_disconnect k) >> return_zero)
