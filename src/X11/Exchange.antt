-- ===== src/X11/Exchange.antt =====
-- `x11_send_receive` of example/x11.c: data between an X11 channel and the socket of the X server.
pub mod Memory
use cloudssh.Base.{ℕ, ◌==◌, Bool, false, if◌then◌else◌}
use cloudssh.Base.Int.{ℤ, pos, minus_one, is_zero, is_neg, is_pos}
use cloudssh.Api.{
  Stream, Prog, result, contents, call, read, write, pure, fault, ◌>>=◌, ◌>>◌, alloc_buf, alloc_fds,
  free_buf, free_fds, poll_x11, select_x11, x11_eof,
}

abbrev pub x11_bufsize : ℕ
x11_bufsize = 8192

abbrev pub is_one : ℤ → Bool
is_one (pos n) = n == 1
is_one z = false

module _ {J : Type 0} (channel sock : ℕ) where
  -- From the channel to the socket. A failed read gives `write` a count that is negative, which is
  -- a size far beyond the buffer.
  unfoldable pub channel_to_x11 : Prog J ℤ
  channel_to_x11 = do
    rc ← read (Stream.x11_channel channel) x11_bufsize
    if is_neg (result rc) then fault else write (Stream.x11_sock sock) (contents rc)

  unfoldable pub x11_end : Prog J ℤ
  x11_end = do
    call free_fds
    call free_buf
    eof ← call (x11_eof channel)
    if is_one eof then pure minus_one else pure (pos 0)

  -- From the socket to the channel, and to the end of the function.
  unfoldable pub x11_to_channel : Prog J ℤ
  unfolding x11_end
  x11_to_channel = do
    rc ← call (select_x11 sock)
    if is_pos rc
        then (do
          rc' ← read (Stream.x11_sock sock) x11_bufsize
          if is_pos (result rc')
              then write (Stream.x11_channel channel) (contents rc') >> x11_end
              else call free_buf >> pure minus_one)
        else x11_end

  unfoldable pub x11_send_receive : Prog J ℤ
  unfolding channel_to_x11 x11_to_channel
  x11_send_receive = do
    buf ← call alloc_buf
    if is_zero buf then pure (pos 0) else (do
      fds ← call alloc_fds
      if is_zero fds then call free_buf >> pure (pos 0) else (do
        rc ← call poll_x11
        if is_pos rc then channel_to_x11 else pure rc
        x11_to_channel))
