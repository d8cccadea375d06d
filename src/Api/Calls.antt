-- ===== src/Api/Calls.antt =====
-- The calls of libssh2, of sockets and of stdio that the programs of example/ make.
use Prim.Native.String.{String}
use cloudssh.Base.{ℕ, ◌+◌, ◌*◌, Bool, List, ◌==◌, length}
use cloudssh.Base.Int.{ℤ, pos, negsuc}

-- Where data goes or comes from. An X11 connection is known by its socket; `auth_methods` is the
-- text that libssh2_userauth_list returns, and a read of it that fails is NULL. A read of
-- `remote_dir` gives the name of the next entry, and one of `long_entry` its description;
-- `display_text` is what getenv("DISPLAY") returns.
pub data Stream : Type 0 where
  channel remote_file forward_sock local_file temp_file stdin stdout stderr auth_methods : Stream
  remote_dir long_entry display_text : Stream
  x11_channel x11_sock : ℕ → Stream

abbrev pub stream_id : Stream → ℕ
stream_id Stream.channel = 0
stream_id Stream.remote_file = 1
stream_id Stream.forward_sock = 2
stream_id Stream.local_file = 3
stream_id Stream.temp_file = 4
stream_id Stream.stdin = 5
stream_id Stream.stdout = 6
stream_id Stream.stderr = 7
stream_id Stream.auth_methods = 8
stream_id Stream.remote_dir = 9
stream_id Stream.long_entry = 10
stream_id Stream.display_text = 11
stream_id (Stream.x11_channel n) = 12 + 2 * n
stream_id (Stream.x11_sock n) = 13 + 2 * n

abbrev pub same : Stream → Stream → Bool
same s s' = stream_id s == stream_id s'

-- The answer to a read: the bytes put into the buffer, none of them at the end of the data, or
-- the error -(n + 1).
pub data Input : Type 0 where
  bytes : List ℕ → Input
  failed : ℕ → Input

-- What the call returns.
abbrev pub result : Input → ℤ
result (bytes bs) = pos (length bs)
result (failed n) = negsuc n

-- What `fread` left in the buffer: its result has no error values.
abbrev pub contents : Input → List ℕ
contents (bytes bs) = bs
contents (failed n) = List.[]

pub data Sock : Type 0 where
  ssh_sock listen_sock local_sock : Sock

-- 127.0.0.1 as htonl(0x7F000001), or the address in an argument.
pub data Host : Type 0 where
  loopback : Host
  address : String → Host

pub data Method : Type 0 where
  password keyboard_interactive publickey : Method

-- A pointer that a call returns is 0 for NULL and any other number else.
pub data Call : Type 0 where
  lib_init lib_exit : Call
  socket close listen accept setsockopt : Sock → Call
  connect bind : Sock → Host → ℕ → Call
  inet_addr : String → Call
  select_read : Sock → Call
  select_both : Sock → Call
  wait_socket : Bool → Bool → Call
  fopen : Stream → String → Call
  fclose : Stream → Call
  stat : String → Call
  session_init session_handshake hostkey_hash session_disconnect session_free : Call
  last_errno block_directions : Call
  set_blocking : Bool → Call
  userauth : Method → String → String → Call
  knownhost_init knownhost_readfile knownhost_writefile knownhost_check knownhost_free : Call
  session_hostkey trace_on : Call
  sftp_init sftp_shutdown sftp_close sftp_closedir sftp_fstat : Call
  sftp_open : String → ℕ → Call
  sftp_opendir sftp_mkdir : String → Call
  sftp_seek : ℕ → Call
  scp_recv : String → Call
  scp_send : String → Call
  file_size : Call
  channel_open channel_shell channel_free channel_close channel_eof : Call
  channel_send_eof channel_wait_eof channel_wait_closed : Call
  channel_exit_status channel_exit_signal : Call
  channel_exec channel_subsystem channel_request_pty : String → Call
  channel_setenv : String → String → Call
  direct_tcpip : String → ℕ → Call
  forward_listen : String → ℕ → Call
  forward_accept forward_cancel : Call
  alloc_node alloc_buf alloc_fds free_buf free_fds tcgetattr window_size : Call
  tcsetattr : Bool → Call
  getenv : String → Call
  unix_socket poll_revents poll_x11 select_stdin : Call
  poll_channel : ℕ → Call
  select_x11 shutdown_x11 close_x11 x11_eof : ℕ → Call
  channel_x11_req channel_pty_size : Call
  system : String → Call
  unix_connect : ℤ → Call
  channel_set_blocking : Bool → Call
  dir_flags dir_uid dir_gid dir_size x11_request session_callback : Call
  agent_init agent_connect agent_list_identities agent_get_identity : Call
  agent_disconnect agent_free : Call
  agent_userauth : String → Call
