-- ===== src/Reupload.antt =====
-- The second half of example/sftp_RW_nonblock.c, which sends the temporary file to the server
-- again.
pub mod Cut
use cloudssh.Base.{ℕ, zero, suc, List, [], if◌then◌else◌, is_empty}
use cloudssh.Base.Int.{ℤ, is_neg, is_pos, is_eagain}
use cloudssh.Api.{
  Stream, Sock, Prog, contents, pure, out_of_rounds, read, write, call, select_both, ◌>>=◌, ◌>>◌,
}

module _ {J : Type 0} where
  -- do { rc = write(ptr, nread); ptr += rc; nread -= nread; } while (rc >= 0);
  -- `nread` is 0 after the first round.
  unfoldable pub rw_block : ℕ → List ℕ → Prog J ℤ
  rw_block zero buf = out_of_rounds
  rw_block (suc k) buf = do
    rc ← write Stream.remote_file buf
    if is_neg rc then pure rc else rw_block k []

  -- The loop over the temporary file; the result is the last `rc`, of a write or of `select`.
  unfoldable pub rw_upload : ℕ → ℤ → Prog J ℤ
  unfolding rw_block
  rw_upload zero rc = out_of_rounds
  rw_upload (suc k) rc = do
    nread ← read Stream.temp_file 1000
    if is_empty (contents nread) then pure rc else (do
      rc' ← rw_block k (contents nread)
      if is_eagain rc'
          then (do
            ready ← call (select_both Sock.ssh_sock)
            if is_pos ready then rw_upload k ready else pure ready)
          else pure rc')
