-- ===== src/Programs/Shell.antt =====
-- example/ssh2.c: a login shell.
use Prim.Native.String.{String}
use cloudssh.Base.{List, if◌then◌else◌}
use cloudssh.Base.Int.{ℤ, is_zero}
use cloudssh.Api.{
  pure, goto, fault, call, at_shutdown, ◌>>=◌, ◌>>◌, session_init, session_handshake,
  session_disconnect, channel_open, channel_setenv, channel_request_pty, channel_shell,
  channel_free,
}
use cloudssh.Programs.Start.{
  Main, arg, host_of, require, start_library, connect_to, secure, show_fingerprint, close_session,
  return_zero,
}
use cloudssh.Programs.Fetch.{option_arg, choose_login}

-- The session is used without a test for NULL.
unfoldable pub untested_session : Main ℤ
untested_session = do session ← call session_init; if is_zero session then fault else pure session

-- A shell that is refused jumps to `shutdown` and leaves the channel; a refused terminal does not.
unfoldable pub request_shell : Main ℤ
request_shell = do
  pty ← call (channel_request_pty "vanilla")
  if is_zero pty
      then (do shell ← call channel_shell; if is_zero shell then pure shell else goto tt)
      else pure pty

unfoldable pub ssh2_main : List String → Main ℤ
unfolding untested_session request_shell
ssh2_main argv = do
  start_library
  connect_to (host_of argv)
  untested_session
  secure (call session_handshake)
  show_fingerprint
  at_shutdown
      (do
        choose_login (option_arg 4 argv) (arg 2 "username" argv) (arg 3 "password" argv)
        require channel_open
        call (channel_setenv "FOO" "bar")
        request_shell
        call channel_free
        pure tt)
      (λ u. close_session (call session_disconnect) >> return_zero)
