-- ===== src/Lib.antt =====
-- The programs of cloudssh: the C++ client of src/ssh.cpp with the classes of src/libssh2/ that it is
-- built on, and the C programs in example/. Each C program is a `main` that connects to an SSH server by
-- libssh2, checks or prints its host key, logs in, moves data over SFTP, SCP or a channel, and
-- closes everything at the label `shutdown`.
--
-- libssh2, the sockets, stdio and the server are not part of the repository. They are the
-- parameter `Env` (Api/Action.antt): a function that answers every call, knowing all calls before
-- it. A program is an action on the trace of its calls, and ends in one of five ways: it goes on,
-- it jumps to `shutdown`, it leaves with an exit code, it does something undefined in C, or its
-- rounds are used up. What the manuals promise (a write takes no more than it is offered, a read
-- gives no more than it is asked for, a file is read in order) is a named hypothesis of the
-- theorems that need it: `IsHonest`, `ReadsFile`, `TakesSome`, `TakesAll`, `IsWilling`.
--
-- The parts, and what they model:
--   Base          numbers, lists, C's signed results, strstr, atoi and NUL-terminated texts
--   Api           the calls of libssh2, sockets and stdio; actions; what a trace carries of each
--                 stream; rules of correctness; `waitsocket`, which each non-blocking program has
--   Upload        the transfer loops of example/sftp_write.c, sftp_append.c,
--                 sftp_write_nonblock.c, scp_write.c and scp_write_nonblock.c
--   Sliding       the loop of example/sftp_write_sliding.c, which keeps unsent bytes in its buffer
--   Download      the transfer loops of example/sftp.c, sftp_nonblock.c, scp.c, scp_nonblock.c and
--                 the download half of sftp_RW_nonblock.c
--   Reupload      the second half of example/sftp_RW_nonblock.c
--   Auth          the choice of the login method in example/sftp.c and sftpdir.c
--   Forward       the forwarding loops of example/direct_tcpip.c and tcpip-forward.c
--   Netconf       `netconf_write` and `netconf_read_until` of example/subsystem_netconf.c
--   X11           example/x11.c: the list of connections in a heap with `remove_node`, Display with
--                 `x11_callback`, and Exchange with `x11_send_receive`
--   Programs      whole programs, from the arguments to the exit code: `sftp_write_main` and the
--                 like are the `main` of the file of that name. Start has what they share, Listing
--                 the directory listings, Tunnel and Remote the forwarding programs and NETCONF,
--                 Shell the `main` of ssh2.c, Agent that of ssh2_agent.c, X11Main that of x11.c, Refetch that
--                 of sftp_RW_nonblock.c (`sftp_rw_nonblock_main`),
--                 Order the state machine of the order of calls and the rules to follow it, Upload
--                 the whole uploads where nothing fails
--   Wrapper       the classes of src/libssh2/: the use counts of what their `shared_ptr` share,
--                 constructors that throw, destructors (`drop_channel` and the like), `SSH::SSH` as
--                 `new_ssh`. Held follows the open handles through a trace, Client is src/ssh.cpp,
--                 and `connect_to_ssh` is that of src/ssh.old.cpp
--   Tests         the theorems at small servers, files and heaps
--
-- In the wrapper a jump is a C++ exception that carries the use counts; a scope with a variable in it
-- (`local_variable`) runs the destructor on both ways out. Of each class there is one object, as in
-- the client.
--
-- Loops run on a number of rounds; a run that uses them up ends in `spin`, and the theorems that
-- say that a loop returns say how many rounds are enough. Buffers are lists of bytes; a count that
-- libssh2 returns is an integer of `Base.Int`, and an address is a number, 0 for NULL. A count
-- beyond the buffer it was made for is undefined: C would move a pointer past the array.
--
-- Not modelled: diagnostics on stderr, clocks, pauses and transfer rates, the branches for Windows,
-- the values that libssh2 keeps behind its pointers, and allocation inside libssh2; the callbacks for
-- keyboard-interactive logins, which libssh2 calls; of the wrapper, Listener and the methods that
-- only pass their arguments on; and the loop of src/ssh.old.cpp, which is like that of src/ssh.cpp.
pub mod Base
pub mod Api
pub mod Upload
pub mod Sliding
pub mod Download
pub mod Reupload
pub mod Auth
pub mod Forward
pub mod Netconf
pub mod X11
pub mod Programs
pub mod Tests
pub mod Wrapper
