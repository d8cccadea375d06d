-- ===== src/Upload.antt =====
-- The loops that send a local file: example/sftp_write.c, sftp_append.c, sftp_write_nonblock.c,
-- scp_write.c and scp_write_nonblock.c, all built on one write loop.
pub mod Chunk
pub mod Loop
use cloudssh.Base.{ℕ, zero, suc, ◌*◌, Bool, true, List, [], if◌then◌else◌, is_empty, ◌==◌}
use cloudssh.Base.Int.{ℤ, is_neg, is_pos, is_eagain, pos_part}
use cloudssh.Api.{
  Stream, Prog, contents, pure, out_of_rounds, read, write, call, advance, ◌>>=◌, ◌>>◌, wait_socket,
  block_directions, waitsocket,
}

module _ {J : Type 0} where
  -- do { rc = write(ptr, nread); if (rc < 0) break; ptr += rc; nread -= rc; } while (nread);
  -- The result is the last `rc` with what is left of the buffer.
  unfoldable pub write_chunk : (List ℕ → Prog J ℤ) → ℕ → List ℕ → Prog J (ℤ × List ℕ)
  write_chunk w zero buf = out_of_rounds
  write_chunk w (suc k) buf = do
    rc ← w buf
    if is_neg rc then pure (rc, buf) else do
      rest ← advance rc buf
      if is_empty rest then pure (rc, rest) else write_chunk w k rest

  -- while ((rc = write(ptr, nread)) == LIBSSH2_ERROR_EAGAIN) waitsocket(sock, session);
  unfoldable pub write_retry : Stream → ℕ → List ℕ → Prog J ℤ
  write_retry s zero buf = out_of_rounds
  write_retry s (suc k) buf = do
    rc ← write s buf
    if is_eagain rc then waitsocket >> write_retry s k buf else pure rc

  -- The loop over the file. `go_on` is the condition of the outer `while`.
  unfoldable pub send_file : (List ℕ → Prog J ℤ) → (ℤ → List ℕ → Bool) → ℕ → ℕ → ℤ → Prog J ℤ
  send_file w go_on size zero rc = out_of_rounds
  send_file w go_on size (suc k) rc = do
    nread ← read Stream.local_file size
    let buf = contents nread
    if is_empty buf then pure rc else do
      (rc', rest) ← write_chunk w k buf
      if go_on rc' rest then send_file w go_on size k rc' else pure rc'

  unfoldable pub sftp_write_data : ℕ → ℤ → Prog J ℤ
  unfolding send_file write_chunk
  sftp_write_data k = send_file (write Stream.remote_file) (λ rc rest. is_pos rc) (1024 * 100) k

  unfoldable pub sftp_append_data : ℕ → ℤ → Prog J ℤ
  unfolding send_file write_chunk
  sftp_append_data k = send_file (write Stream.remote_file) (λ rc rest. is_pos rc) (1024 * 100) k

  unfoldable pub sftp_write_nonblock_data : ℕ → ℤ → Prog J ℤ
  unfolding send_file write_chunk write_retry
  sftp_write_nonblock_data k =
      send_file (write_retry Stream.remote_file k) (λ rc rest. is_pos rc) (1024 * 100) k

  -- The loop goes on after a failed write, whatever is left of the buffer.
  unfoldable pub scp_write_data : ℕ → ℤ → Prog J ℤ
  unfolding send_file write_chunk
  scp_write_data k = send_file (write Stream.channel) (λ rc rest. true) 1024 k

  unfoldable pub scp_write_nonblock_data : ℕ → ℤ → Prog J ℤ
  unfolding send_file write_chunk write_retry
  scp_write_nonblock_data k =
      send_file (write_retry Stream.channel k) (λ rc rest. is_empty rest) (1024 * 100) k
