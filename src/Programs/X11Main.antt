-- ===== src/Programs/X11Main.antt =====
-- example/x11.c from the arguments to the exit code. libssh2 calls `x11_callback` where it reads from
-- the server; the model asks for such a call, `x11_request`, once in each round.
pub mod Clients
pub mod Terminal
use Prim.Native.String.{String}
use cloudssh.Base.{
  ℕ, zero, suc, ◌-◌, ◌==◌, ltb, Bool, true, false, Option, none, some, List, [], ◌∷◌, ◌++◌, length,
  drop, replicate, if◌then◌else◌, not,
}
use cloudssh.Base.Int.{ℤ, pos, negsuc, pos_part, minus_one, is_zero, is_pos, is_minus_one}
use cloudssh.Base.Text.{cstring}
use cloudssh.Api.{
  Stream, Sock, Host, Method, Call, Input, contents, result, call, read, write, pure, exit, fault,
  out_of_rounds, ◌>>=◌, ◌>>◌, lib_exit, close, session_handshake, session_disconnect, session_free,
  trace_on, session_callback, userauth, channel_open, channel_request_pty, channel_x11_req,
  channel_shell, channel_pty_size, channel_free, channel_eof, tcgetattr, tcsetattr, window_size,
  alloc_buf, alloc_fds, free_buf, free_fds, poll_channel, select_stdin, shutdown_x11, close_x11,
  x11_request,
}
use cloudssh.X11.{Ptr, null, Store, remove_node}
use cloudssh.X11.Display.{on_list, x11_callback}
use cloudssh.X11.Exchange.{is_one, x11_send_receive}
use cloudssh.Programs.Start.{Main, arg, start_library, secure}
use cloudssh.Programs.Scp.{connect_checked}
use cloudssh.Programs.Shell.{untested_session}

unfoldable pub raw_mode : Main ℤ
raw_mode = do rc ← call tcgetattr; if is_minus_one rc then pure rc else call (tcsetattr true)

unfoldable pub normal_mode : Main ℤ
normal_mode = call (tcsetattr false)

-- session_shutdown(session); close(sock); return -1;
unfoldable pub give_up : Main ℤ
give_up =
    call session_disconnect >> call session_free >> call (close Sock.ssh_sock) >> exit minus_one

unfoldable pub or_give_up : Main ℤ → Main ℤ
unfolding give_up
or_give_up m = do rc ← m; if is_zero rc then pure rc else give_up

-- The loop over the connections: one that is at its end is closed and taken off the list.
unfoldable pub serve_clients : ℕ → Store → Ptr → Main Store
unfolding x11_send_receive remove_node on_list
serve_clients zero s current = out_of_rounds
serve_clients (suc k) s current = if current == null then pure s else elim (s.heap current) [
  | none ↦ fault
  | some node ↦ (do
    rc ← x11_send_receive node.chan node.sock
    s' ←
        if is_minus_one rc
        then (do
          call (shutdown_x11 node.sock)
          call (close_x11 node.sock)
          on_list (remove_node k s current))
        else pure s
    serve_clients k s' node.next)
]

-- sizeof(buf), where `buf` is a pointer.
abbrev pub pointer_size : ℕ
pointer_size = 8

-- The first eight bytes of a buffer of zeros with `bs` at its start.
abbrev pub eight_of : List ℕ → List ℕ
eight_of bs = bs ++ replicate (pointer_size - length bs) 0

-- The output of the shell; `buf` is 0 behind the eight bytes that a read may fill.
unfoldable pub show_shell : Main (List ℕ)
unfolding cstring
show_shell = do
  rc ← call (poll_channel 1)
  if is_pos rc
      then (do
        i ← read Stream.channel pointer_size
        write Stream.stdout (cstring (contents i))
        pure (contents i))
      else pure []

-- A typed character goes to the server with seven bytes of the buffer behind it.
unfoldable pub send_key : List ℕ → Main ℤ
send_key buf = do
  rc ← call select_stdin
  if is_pos rc
      then (do
        c ← read Stream.stdin 1
        if is_pos (result c)
            then write Stream.channel (contents c ++ drop 1 (eight_of buf))
            else pure rc)
      else pure rc

abbrev pub same_size : ℤ → ℤ → Bool
same_size (pos m) (pos n) = m == n
same_size (negsuc m) (negsuc n) = m == n
same_size m n = false

-- A window size is one number here, for its rows and columns.
unfoldable pub resize : ℤ → Main ℤ
resize w_size_bck = do
  w_size ← call window_size
  if same_size w_size w_size_bck then pure w_size_bck else call channel_pty_size >> pure w_size

unfoldable pub x11_clients : ℕ → Store → Main Store
unfolding x11_callback serve_clients
x11_clients k s = do
  new ← call x11_request
  s' ← if is_zero new then pure s else x11_callback k s (pos_part new)
  serve_clients k s' s'.head

unfoldable pub x11_loop : ℕ → Store → ℤ → Main (Unit {0})
unfolding resize show_shell x11_clients send_key
x11_loop zero s size = out_of_rounds
x11_loop (suc k) s size = do
  size' ← resize size
  memory ← call alloc_buf
  if is_zero memory then pure tt else (do
    fds ← call alloc_fds
    if is_zero fds then call free_buf >> pure tt else (do
      buf ← show_shell
      s' ← x11_clients k s
      send_key buf
      call free_fds
      call free_buf
      eof ← call channel_eof
      if is_one eof then pure tt else x11_loop k s' size'))

abbrev pub no_clients : Store
no_clients = record { heap = λ p. none; head = null }

-- The fourth argument turns on the trace.
unfoldable pub x11_main : ℕ → List String → Main ℤ
unfolding or_give_up raw_mode normal_mode x11_loop
x11_main k argv = if ltb (length argv) 3 then exit minus_one else (do
  start_library
  connect_checked (Host.address (arg 1 "" argv))
  untested_session
  secure (call session_handshake)
  if ltb 3 (length argv) then call trace_on else pure (pos 0)
  call session_callback
  or_give_up (call (userauth Method.password (arg 2 "" argv) (arg 3 "" argv)))
  channel ← call channel_open
  if is_zero channel then give_up else pure channel
  or_give_up (call (channel_request_pty "xterm"))
  or_give_up (call channel_x11_req)
  or_give_up (call channel_shell)
  or_give_up raw_mode
  x11_loop k no_clients (pos 0)
  call channel_free
  normal_mode
  call lib_exit
  exit (pos 0))
