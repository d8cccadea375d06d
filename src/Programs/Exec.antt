-- ===== src/Programs/Exec.antt =====
-- The program that runs a command: example/ssh2_exec.c.
use Prim.Native.String.{String}
use cloudssh.Base.{ℕ, zero, suc, false, List, if◌then◌else◌, is_empty, not}
use cloudssh.Base.Int.{ℤ, pos, is_eagain, is_zero}
use cloudssh.Base.Text.{codes}
use cloudssh.Api.{
  Stream, Host, session_handshake, session_disconnect, last_errno, set_blocking, knownhost_init,
  knownhost_readfile, knownhost_writefile, knownhost_check, knownhost_free, session_hostkey,
  channel_open, channel_free, channel_close, channel_exit_status, channel_exit_signal, channel_exec,
  pure, exit, out_of_rounds, call, write, read, at_shutdown, ◌>>=◌, ◌>>◌, waitsocket,
}
use cloudssh.Download.{drain}
use cloudssh.Programs.Start.{
  arg, Main, retry, retry_wait, start_library, connect_to, new_session, secure, login,
  close_session, return_zero,
}

-- Read until it would block, wait, and go on, until there is another result.
unfoldable pub exec_loop : ℕ → Main ℤ
exec_loop zero = out_of_rounds
exec_loop (suc k) = do
  rc ← drain (read Stream.channel 16384) (write Stream.stderr) k
  if is_eagain rc then waitsocket >> exec_loop k else pure rc

-- The host key is looked up among the known hosts; the result of the check is only printed.
unfoldable pub check_hostkey : Main ℤ
check_hostkey = do
  nh ← call knownhost_init
  if is_zero nh then exit (pos 2) else pure nh
  call knownhost_readfile
  call knownhost_writefile
  fingerprint ← call session_hostkey
  if is_zero fingerprint then exit (pos 3) else call knownhost_check
  call knownhost_free

-- while ((channel = open_session()) == NULL && last_error() == EAGAIN) waitsocket();
unfoldable pub open_channel : ℕ → Main ℤ
open_channel zero = out_of_rounds
open_channel (suc k) = do
  channel ← call channel_open
  if is_zero channel
      then (do
        err ← call last_errno
        if is_eagain err then waitsocket >> open_channel k else exit (pos 1))
      else pure channel

-- A channel is opened, and the command is run on it.
unfoldable pub run_command : ℕ → String → Main ℤ
run_command k commandline = do
  open_channel k
  rc ← retry_wait (channel_exec commandline) k
  if is_zero rc then pure rc else exit (pos 1)

-- Exit code and signal are asked for if the channel could be closed.
unfoldable pub close_channel : ℕ → Main ℤ
close_channel k = do
  rc ← retry_wait channel_close k
  if is_zero rc then call channel_exit_status >> call channel_exit_signal else pure rc
  call channel_free

unfoldable pub ssh2_exec_main : ℕ → List String → Main ℤ
ssh2_exec_main k argv = do
  start_library
  connect_to (Host.address (arg 1 "127.0.0.1" argv))
  new_session
  call (set_blocking false)
  secure (retry session_handshake k)
  check_hostkey
  at_shutdown
      (do
        let password = arg 3 "password" argv
        login (λ c. retry c k) (not (is_empty (codes password))) (arg 2 "user" argv) password
        run_command k (arg 4 "uptime" argv)
        exec_loop k
        close_channel k
        pure tt)
      (λ u. close_session (call session_disconnect) >> return_zero)
