-- ===== src/Download.antt =====
-- The loops that fetch a remote file: example/scp.c, scp_nonblock.c, sftp.c, sftp_nonblock.c and
-- the first half of sftp_RW_nonblock.c.
pub mod Copy
pub mod Scp
use cloudssh.Base.{
  ℕ, zero, suc, ◌+◌, ◌*◌, ◌-◌, ◌&&◌, Bool, List, if◌then◌else◌, ltb, length, min, not,
}
use cloudssh.Base.Int.{ℤ, pos, is_neg, is_pos, is_eagain}
use cloudssh.Api.{
  Stream, Sock, Input, Prog, result, contents, pure, out_of_rounds, read, write, call, select_both,
  waitsocket, ◌>>=◌, ◌>>◌,
}

-- The smaller of the buffer and what is left of the file.
abbrev pub amount : ℕ → ℕ → ℕ → ℕ
amount buffer size got = if ltb (size - got) buffer then size - got else buffer

module _ {J : Type 0} where
  -- while ((rc = read(…)) == LIBSSH2_ERROR_EAGAIN) waitsocket(sock, session);
  unfoldable pub read_retry : Stream → ℕ → ℕ → Prog J Input
  read_retry s size zero = out_of_rounds
  read_retry s size (suc k) = do
    i ← read s size
    if is_eagain (result i) then waitsocket >> read_retry s size k else pure i

  -- do { rc = read(…); if (rc > 0) put(mem, rc); else break; } while (1);
  unfoldable pub drain : Prog J Input → (List ℕ → Prog J ℤ) → ℕ → Prog J ℤ
  drain r put zero = out_of_rounds
  drain r put (suc k) = do
    i ← r
    if is_pos (result i) then put (contents i) >> drain r put k else pure (result i)

  unfoldable pub sftp_data : ℕ → Prog J ℤ
  unfolding drain
  sftp_data k = drain (read Stream.remote_file 1024) (write Stream.stdout) k

  unfoldable pub sftp_nonblock_data : ℕ → Prog J ℤ
  unfolding drain read_retry
  sftp_nonblock_data k = drain (read_retry Stream.remote_file (1024 * 24) k) (write Stream.stdout) k

  -- Each block goes to the terminal and to the temporary file.
  unfoldable pub store : List ℕ → Prog J ℤ
  store bs = write Stream.stderr bs >> write Stream.temp_file bs

  -- The download half: where a read would block the socket is waited for, for ten seconds.
  unfoldable pub rw_download : ℕ → Prog J ℤ
  unfolding drain store
  rw_download zero = out_of_rounds
  rw_download (suc k) = do
    rc ← drain (read Stream.remote_file 1000) store k
    if is_eagain rc
        then (do
          ready ← call (select_both Sock.ssh_sock)
          if is_pos ready then rw_download k else pure ready)
        else pure rc

  -- scp.c: the result is `got`.
  unfoldable pub scp_loop : ℕ → ℕ → ℕ → Prog J ℕ
  scp_loop size zero got = out_of_rounds
  scp_loop size (suc k) got =
      if ltb got size
      then (do
        i ← read Stream.channel (amount 1024 size got)
        if is_neg (result i)
            then pure got
            else (if is_pos (result i) then write Stream.stdout (contents i) else pure (pos 0))
              >> scp_loop size k (got + length (contents i)))
      else pure got

  -- scp_nonblock.c, the loop `do … while (rc > 0)`: the last result and `got`.
  unfoldable pub scp_block : ℕ → ℕ → ℕ → Prog J (ℤ × ℕ)
  scp_block size zero got = out_of_rounds
  scp_block size (suc k) got = do
    i ← read Stream.channel (amount (1024 * 24) size got)
    if is_pos (result i)
        then write Stream.stdout (contents i) >> scp_block size k (got + length (contents i))
        else pure (result i, got)

  unfoldable pub scp_nonblock_loop : ℕ → ℕ → ℕ → Prog J ℕ
  unfolding scp_block
  scp_nonblock_loop size zero got = out_of_rounds
  scp_nonblock_loop size (suc k) got =
      if ltb got size
      then (do
        (rc, got') ← scp_block size k got
        if is_eagain rc && ltb got' size
            then waitsocket >> scp_nonblock_loop size k got'
            else pure got')
      else pure got
