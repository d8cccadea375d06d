-- ===== src/Programs/Refetch.antt =====
-- example/sftp_RW_nonblock.c: a download to a temporary file and the upload of it to another path.
use Prim.Native.String.{String}
use cloudssh.Base.{ℕ, ◌+◌, List, if◌then◌else◌, true, false}
use cloudssh.Base.Int.{ℤ, pos, is_zero}
use cloudssh.Api.{
  Stream, Host, fopen, fclose, session_handshake, session_disconnect, set_blocking, sftp_init,
  sftp_shutdown, sftp_close, sftp_open, Prog, pure, goto, call, at_shutdown, jumping_with, ◌>>=◌,
  ◌>>◌, waitsocket,
}
use cloudssh.Download.{rw_download}
use cloudssh.Reupload.{rw_upload}
use cloudssh.Programs.Start.{
  Main, arg, retry, obtain, start_library, connect_to, new_session, secure, show_fingerprint, login,
  close_session, return_zero,
}
use cloudssh.Programs.Sftp.{fxf_read, fxf_write, fxf_creat}

-- tempstorage = fopen(STORAGE, mode); if (!tempstorage) goto shutdown;
-- The value of a jump is `tempstorage`, 0 for NULL.
unfoldable pub open_storage : Prog ℤ ℤ
open_storage = do
  tempstorage ← call (fopen Stream.temp_file "/tmp/sftp-storage")
  if is_zero tempstorage then goto tempstorage else pure tempstorage

-- From the login to the closing of the temporary file.
unfoldable pub fetch_to_storage : ℕ → List String → Main ℤ
fetch_to_storage k argv = do
  login (λ c. retry c k) true (arg 1 "username" argv) (arg 2 "password" argv)
  obtain waitsocket sftp_init k
  obtain waitsocket (sftp_open (arg 3 "/tmp/TEST" argv) fxf_read) k
  rw_download k
  call sftp_close
  call (fclose Stream.temp_file)

-- The upload is left out where the destination cannot be opened.
unfoldable pub send_storage : ℕ → List String → Prog ℤ ℤ
unfolding open_storage
send_storage k argv = do
  tempstorage ← open_storage
  sftp_handle ← call (sftp_open (arg 4 "/tmp/TEST2" argv) (fxf_write + fxf_creat))
  if is_zero sftp_handle then pure (pos 0) else rw_upload k (pos 0)
  call sftp_shutdown
  pure tempstorage

unfoldable pub sftp_rw_nonblock_main : ℕ → List String → Main ℤ
unfolding open_storage fetch_to_storage send_storage
sftp_rw_nonblock_main k argv = do
  start_library
  connect_to Host.loopback
  new_session
  secure (call session_handshake)
  call (set_blocking false)
  show_fingerprint
  at_shutdown
      (do
        tempstorage ← open_storage
        jumping_with tempstorage (fetch_to_storage k argv)
        send_storage k argv)
      (λ tempstorage.
        close_session (call session_disconnect)
        >> (if is_zero tempstorage then pure (pos 0) else call (fclose Stream.temp_file))
        >> return_zero)
