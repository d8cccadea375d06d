-- ===== src/Programs/Scp.antt =====
-- The programs on SCP: example/scp.c, scp_nonblock.c, scp_write.c and scp_write_nonblock.c.
use Prim.Native.String.{String}
use cloudssh.Base.{ℕ, true, false, List, if◌then◌else◌}
use cloudssh.Base.Int.{ℤ, pos, minus_one, is_minus_one, is_zero, pos_part}
use cloudssh.Api.{
  Stream, Sock, Host, socket, connect, fclose, stat, session_handshake, session_disconnect,
  set_blocking, scp_recv, scp_send, file_size, channel_free, channel_send_eof, channel_wait_eof,
  channel_wait_closed, pure, exit, call, at_shutdown, ◌>>=◌, ◌>>◌, waitsocket,
}
use cloudssh.Upload.{scp_write_data, scp_write_nonblock_data}
use cloudssh.Download.{scp_loop, scp_nonblock_loop}
use cloudssh.Programs.Start.{
  arg, host_of, Main, retry, obtain, require, start_library, open_local, connect_to, new_session,
  secure, show_fingerprint, login, close_session, return_zero,
}

-- The size that `libssh2_scp_recv2` fills in is read as a call of its own.
unfoldable pub scp_main : ℕ → List String → Main ℤ
scp_main k argv = do
  start_library
  connect_to (host_of argv)
  new_session
  secure (call session_handshake)
  show_fingerprint
  at_shutdown
      (do
        login call true (arg 2 "username" argv) (arg 3 "password" argv)
        require (scp_recv (arg 4 "/tmp/TEST" argv))
        size ← call file_size
        scp_loop (pos_part size) k 0
        call channel_free
        pure tt)
      (λ u. close_session (call session_disconnect) >> return_zero)

unfoldable pub scp_nonblock_main : ℕ → List String → Main ℤ
scp_nonblock_main k argv = do
  start_library
  connect_to (host_of argv)
  new_session
  call (set_blocking false)
  secure (retry session_handshake k)
  show_fingerprint
  at_shutdown
      (do
        login (λ c. retry c k) true (arg 2 "username" argv) (arg 3 "password" argv)
        obtain waitsocket (scp_recv (arg 4 "/tmp/TEST" argv)) k
        size ← call file_size
        scp_nonblock_loop (pos_part size) k 0
        call channel_free
        pure tt)
      (λ u. close_session (call session_disconnect) >> return_zero)

-- scp_write.c also tests what `socket` returns.
unfoldable pub connect_checked : Host → Main ℤ
connect_checked host = do
  sock ← call (socket Sock.ssh_sock)
  if is_minus_one sock then exit minus_one else pure sock
  rc ← call (connect Sock.ssh_sock host 22)
  if is_zero rc then pure sock else exit minus_one

unfoldable pub scp_write_main : ℕ → List String → Main ℤ
scp_write_main k argv = do
  start_library
  open_local (arg 4 "scp_write.c" argv)
  call (stat (arg 4 "scp_write.c" argv))
  connect_checked (host_of argv)
  new_session
  secure (call session_handshake)
  show_fingerprint
  at_shutdown
      (do
        login call true (arg 2 "username" argv) (arg 3 "password" argv)
        require (scp_send (arg 5 "/tmp/TEST" argv))
        scp_write_data k (pos 0)
        call channel_send_eof
        call channel_wait_eof
        call channel_wait_closed
        call channel_free
        pure tt)
      (λ u.
        close_session (call session_disconnect) >> call (fclose Stream.local_file) >> return_zero)

unfoldable pub scp_write_nonblock_main : ℕ → List String → Main ℤ
scp_write_nonblock_main k argv = do
  start_library
  open_local (arg 4 "scp_write.c" argv)
  call (stat (arg 4 "scp_write.c" argv))
  connect_to (host_of argv)
  new_session
  call (set_blocking false)
  secure (retry session_handshake k)
  show_fingerprint
  at_shutdown
      (do
        login (λ c. retry c k) true (arg 2 "username" argv) (arg 3 "password" argv)
        obtain (pure (pos 0)) (scp_send (arg 5 "/tmp/TEST" argv)) k
        scp_write_nonblock_data k (pos 0)
        retry channel_send_eof k
        retry channel_wait_eof k
        retry channel_wait_closed k
        call channel_free
        pure tt)
      (λ u. close_session (retry session_disconnect k) >> return_zero)
