-- ===== src/Sliding.antt =====
-- The upload of example/sftp_write_sliding.c: a buffer that is filled behind what is left of it
-- and sent from its front.
pub mod Window
pub mod Total
use cloudssh.Base.{
  ◌&&◌, ℕ, zero, suc, ◌*◌, ◌-◌, Bool, true, List, [], ◌++◌, if◌then◌else◌, is_empty, length,
}
use cloudssh.Base.Int.{ℤ, is_neg, is_pos}
use cloudssh.Api.{Stream, Prog, contents, pure, out_of_rounds, read, advance, ◌>>=◌}
use cloudssh.Upload.{write_retry}

-- sizeof(mem)
abbrev pub mem_size : ℕ
mem_size = 1024 * 1000

module _ {J : Type 0} where
  -- `mem` holds the `memuse` bytes that are read and not sent; the result is what it holds in the
  -- end.
  unfoldable pub sliding_loop : ℕ → List ℕ → Prog J (List ℕ)
  unfolding write_retry
  sliding_loop zero mem = out_of_rounds
  sliding_loop (suc k) mem = do
    nread ← read Stream.local_file (mem_size - length mem)
    if is_empty (contents nread) && is_empty mem then pure mem else do
      let filled = mem ++ contents nread
      rc ← write_retry Stream.remote_file k filled
      if is_neg rc
          then pure filled
          else do rest ← advance rc filled; if is_pos rc then sliding_loop k rest else pure rest

  unfoldable pub sftp_write_sliding_data : ℕ → Prog J (List ℕ)
  unfolding sliding_loop
  sftp_write_sliding_data k = sliding_loop k []
