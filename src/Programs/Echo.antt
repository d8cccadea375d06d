-- ===== src/Programs/Echo.antt =====
-- The program that sends data to a remote `cat` and reads it back: example/ssh2_echo.c.
pub mod Counts
use Prim.Native.String.{String}
use cloudssh.Base.{
  ℕ, zero, suc, ◌+◌, ◌-◌, ◌/◌, ◌%◌, ◌==◌, ltb, Bool, true, false, ◌&&◌, not, is_empty, List, ◌++◌,
  take, drop, replicate, length, if◌then◌else◌,
}
use cloudssh.Base.Int.{ℤ, pos, pos_part, is_neg, is_pos, is_zero, is_eagain}
use cloudssh.Base.Text.{codes}
use cloudssh.Api.{
  Stream, Host, Method, result, contents, pure, exit, out_of_rounds, read, write, call, ◌>>=◌, ◌>>◌,
  poll_channel, poll_revents, channel_send_eof, alloc_fds, userauth, set_blocking,
  session_handshake, session_disconnect, trace_on, channel_free, channel_close, channel_exit_status,
  channel_exit_signal, lib_exit,
}
use cloudssh.Programs.Start.{
  Main, arg, retry, retry_wait, start_library, connect_to, new_session, secure, close_session,
}
use cloudssh.Programs.Exec.{check_hostkey, run_command}

abbrev pub bufsize : ℕ
bufsize = 32000

abbrev pub totsize : ℕ
totsize = 1500000

-- The bits of `events` and `revents`.
abbrev pub pollin : ℕ
pollin = 1

abbrev pub pollout : ℕ
pollout = 4

abbrev pub channel_closed : ℕ
channel_closed = 128

abbrev pub has_event : ℕ → ℕ → Bool
has_event revents n = revents / n % 2 == 1

-- The variables of the loop; rereads, rewrites and partials are only printed.
pub record Echo : Type 0 where
  pub buffer : List ℕ
  pub totwritten : ℕ
  pub totread : ℕ
  pub events : ℕ

unfoldable pub echo_read : Echo → Main Echo
echo_read s = do
  n ← read Stream.channel bufsize
  if is_eagain (result n)
      then pure s
      else if is_neg (result n)
      then exit (pos 1)
      else pure (record s {
        buffer = contents n ++ drop (length (contents n)) s.buffer;
        totread = s.totread + length (contents n);
      })

unfoldable pub echo_write : Echo → Main Echo
echo_write s =
    if ltb s.totwritten totsize
    then (do
      let left = totsize - s.totwritten
      n ← write Stream.channel (take (if ltb left bufsize then left else bufsize) s.buffer)
      if is_eagain n
          then pure s
          else if is_neg n
          then exit (pos 1)
          else pure (record s { totwritten = s.totwritten + pos_part n }))
    else (do
      rc ← call channel_send_eof
      if is_eagain rc
          then pure s
          else if is_neg rc
          then exit (pos 1)
          else pure (record s { events = pollin }))

-- do { … } while (running), where a poll without a result is a `continue`.
unfoldable pub echo_loop : ℕ → Echo → Main Echo
unfolding echo_read echo_write
echo_loop zero s = out_of_rounds
echo_loop (suc k) s = do
  rc ← call (poll_channel s.events)
  if is_pos rc
      then (do
        revents ← call poll_revents
        let r = pos_part revents
        s1 ← if has_event r pollin then echo_read s else pure s
        s2 ← if has_event r pollout then echo_write s1 else pure s1
        if has_event r channel_closed && not (has_event r pollin) && not (has_event r pollout)
            then pure s2
            else echo_loop k s2)
      else echo_loop k s

-- The buffer is filled with 'A'.
unfoldable pub echo_start : Echo
echo_start = record {
  buffer = replicate bufsize 65;
  totwritten = 0;
  totread = 0;
  events = pollin + pollout;
}

-- With an empty password there is no login at all.
unfoldable pub password_login : ℕ → String → String → Main ℤ
password_login k username password = if is_empty (codes password) then pure (pos 0) else (do
  rc ← retry (userauth Method.password username password) k
  if is_zero rc then pure rc else exit (pos 1))

-- From the loop to `exitcode`.
unfoldable pub echo_data : ℕ → Main ℤ
echo_data k = do
  fds ← call alloc_fds
  if is_zero fds then exit (pos 1) else pure fds
  s ← echo_loop k echo_start
  rc ← retry_wait channel_close k
  exitcode ←
      if is_zero rc
      then (do status ← call channel_exit_status; call channel_exit_signal; pure status)
      else pure (pos 127)
  call channel_free
  if s.totwritten == s.totread then pure exitcode else exit (pos 1)

unfoldable pub ssh2_echo_main : ℕ → List String → Main ℤ
ssh2_echo_main k argv = do
  start_library
  connect_to (Host.address (arg 1 "127.0.0.1" argv))
  new_session
  call (set_blocking false)
  secure (retry session_handshake k)
  check_hostkey
  password_login k (arg 2 "user" argv) (arg 3 "password" argv)
  call trace_on
  run_command k "cat"
  exitcode ← echo_data k
  close_session (call session_disconnect)
  call lib_exit
  exit exitcode
