-- ===== src/Forward.antt =====
-- The forwarding loops of example/direct_tcpip.c and tcpip-forward.c, between a local socket
-- (`forwardsock`) and an SSH channel. A loop is given the variables that the label `shutdown`
-- reads, and leaves by that label alone.
pub mod Relay
pub mod Resend
use cloudssh.Base.{ℕ, zero, suc, ◌+◌, ◌&&◌, List, if◌then◌else◌, is_empty, length, ltb, not}
use cloudssh.Base.Int.{ℤ, is_neg, is_pos, is_zero, is_minus_one, is_eagain, pos_part}
use cloudssh.Api.{
  Stream, Sock, Prog, result, contents, pure, goto, out_of_rounds, read, write, call, advance,
  select_read, channel_eof, ◌>>=◌, ◌>>◌,
}

-- sizeof(buf)
abbrev pub buf_size : ℕ
buf_size = 16384

module _ {J : Type 0} (j : J) where
  -- direct_tcpip.c: while (wr < len) { i = libssh2_channel_write(channel, buf + wr, len - wr); … }
  unfoldable pub to_channel : ℕ → List ℕ → Prog J (Unit {0})
  to_channel zero buf = out_of_rounds
  to_channel (suc k) buf = if is_empty buf then pure tt else (do
    i ← write Stream.channel buf
    if is_eagain i
        then to_channel k buf
        else if is_neg i
        then goto j
        else (do rest ← advance i buf; to_channel k rest))

  -- while (wr < len) { i = send(forwardsock, buf + wr, len - wr, 0); … }
  unfoldable pub to_socket : ℕ → List ℕ → Prog J (Unit {0})
  to_socket zero buf = out_of_rounds
  to_socket (suc k) buf = if is_empty buf then pure tt else (do
    i ← write Stream.forward_sock buf
    if is_pos i then (do rest ← advance i buf; to_socket k rest) else goto j)

  -- The inner `while (1)`: channel to socket, until a read would block.
  unfoldable pub drain_channel : ℕ → Prog J (Unit {0})
  unfolding to_socket
  drain_channel zero = out_of_rounds
  drain_channel (suc k) = do
    len ← read Stream.channel buf_size
    if is_eagain (result len) then pure tt else if is_neg (result len) then goto j else (do
      to_socket k (contents len)
      eof ← call channel_eof
      if is_zero eof then drain_channel k else goto j)

  -- `if (rc && FD_ISSET(forwardsock, &fds))`: `select` was given one descriptor, so a result that
  -- is not 0 says that it is ready. `out` sends a buffer over the channel.
  unfoldable pub take_from_socket : (List ℕ → Prog J (Unit {0})) → ℤ → Prog J (Unit {0})
  take_from_socket out rc = if is_zero rc then pure tt else (do
    len ← read Stream.forward_sock buf_size
    if is_pos (result len) then out (contents len) else goto j)

  -- One round of the outer loop.
  unfoldable pub forward_round : (List ℕ → Prog J (Unit {0})) → ℕ → Prog J (Unit {0})
  forward_round out k = do
    rc ← call (select_read Sock.local_sock)
    if is_minus_one rc then goto j else take_from_socket out rc >> drain_channel k

  -- The `while (1)` of direct_tcpip.c.
  unfoldable pub direct_tcpip_loop : ℕ → Prog J (Unit {0})
  unfolding forward_round take_from_socket drain_channel to_channel
  direct_tcpip_loop zero = out_of_rounds
  direct_tcpip_loop (suc k) = forward_round (to_channel k) k >> direct_tcpip_loop k

  -- tcpip-forward.c: do { i = libssh2_channel_write(channel, buf, len); … wr += i; }
  -- while (i > 0 && wr < len); with the whole buffer in every call.
  unfoldable pub write_whole : ℕ → ℕ → List ℕ → Prog J (Unit {0})
  write_whole zero wr buf = out_of_rounds
  write_whole (suc k) wr buf = do
    i ← write Stream.channel buf
    if is_neg i
        then goto j
        else if is_pos i && ltb (wr + pos_part i) (length buf)
        then write_whole k (wr + pos_part i) buf
        else pure tt

  -- The `while (1)` of tcpip-forward.c.
  unfoldable pub tcpip_forward_loop : ℕ → Prog J (Unit {0})
  unfolding forward_round take_from_socket drain_channel write_whole
  tcpip_forward_loop zero = out_of_rounds
  tcpip_forward_loop (suc k) = forward_round (write_whole k 0) k >> tcpip_forward_loop k
