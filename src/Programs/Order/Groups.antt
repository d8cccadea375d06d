-- ===== src/Programs/Order/Groups.antt =====
-- The order of calls of all programs of a kind.
use Prim.Native.String.{String}
use cloudssh.Base.{ℕ, Bool, List, []}
use cloudssh.Base.Int.{ℤ}
use cloudssh.Api.{Env}
use cloudssh.Programs.Start.{Main}
use cloudssh.Programs.Sftp.{
  sftp_nonblock_main, sftp_mkdir_main, sftp_mkdir_nonblock_main, sftp_write_main, sftp_append_main,
  sftp_write_nonblock_main, sftp_write_sliding_main,
}
use cloudssh.Programs.Scp.{scp_main, scp_nonblock_main, scp_write_main, scp_write_nonblock_main}
use cloudssh.Programs.Fetch.{sftp_main}
use cloudssh.Programs.Listing.{sftpdir_main, sftpdir_nonblock_main}
use cloudssh.Programs.Shell.{ssh2_main}
use cloudssh.Programs.Refetch.{sftp_rw_nonblock_main}
use cloudssh.Programs.Order.Refetch.{sftp_rw_nonblock_main-IsOrdered}
use cloudssh.Programs.Order.{unit_label, Phase, is_early, Follows}
use cloudssh.Programs.Order.Sftp.{
  sftp_nonblock_main-IsOrdered, sftp_mkdir_main-IsOrdered, sftp_mkdir_nonblock_main-IsOrdered,
  sftp_write_main-IsOrdered, sftp_append_main-IsOrdered, sftp_write_nonblock_main-IsOrdered,
  sftp_write_sliding_main-IsOrdered,
}
use cloudssh.Programs.Order.Scp.{
  scp_main-IsOrdered, scp_nonblock_main-IsOrdered, scp_write_main-IsOrdered,
  scp_write_nonblock_main-IsOrdered,
}
use cloudssh.Programs.Order.Fetch.{sftp_main-IsOrdered}
use cloudssh.Programs.Order.Listing.{sftpdir_main-IsOrdered, sftpdir_nonblock_main-IsOrdered}
use cloudssh.Programs.Order.Shell.{ssh2_main-IsOrdered}

-- The run from the start of the program keeps the order.
abbrev pub Ordered : (Phase → Bool) → (ℕ → List String → Main ℤ) → ℕ → List String → Env → Type 0
Ordered may_fail main k argv env = Follows may_fail (λ a. Phase.finished) (main k argv env [])

-- Whatever is answered, example/sftp_write.c, sftp_append.c, sftp_write_nonblock.c, sftp_write_sliding.c,
-- scp_write.c and scp_write_nonblock.c keep the order of calls: no session before the socket is
-- connected, no login before the handshake, nothing else before a login with result 0. They return 0
-- only after disconnect, free, close and libssh2_exit in this order, and another code only before the
-- handshake is done.
pub uploads-AreOrdered :
    (k : ℕ) (argv : List String) (env : Env)
    → Ordered is_early sftp_write_main k argv env
      × Ordered is_early sftp_append_main k argv env
      × Ordered is_early sftp_write_nonblock_main k argv env
      × Ordered is_early sftp_write_sliding_main k argv env
      × Ordered is_early scp_write_main k argv env
      × Ordered is_early scp_write_nonblock_main k argv env
uploads-AreOrdered k argv env = (
  sftp_write_main-IsOrdered k argv env,
  sftp_append_main-IsOrdered k argv env,
  sftp_write_nonblock_main-IsOrdered k argv env,
  sftp_write_sliding_main-IsOrdered k argv env,
  scp_write_main-IsOrdered k argv env,
  scp_write_nonblock_main-IsOrdered k argv env,
)

-- Whatever is answered, example/sftp.c, sftp_nonblock.c, sftp_RW_nonblock.c, scp.c and
-- scp_nonblock.c keep the order of calls:
-- no session before the socket is connected, no question for the login methods and no login before
-- the handshake, nothing else before a login with result 0. They return 0 only after disconnect,
-- free, close and libssh2_exit in this order, and another code only before the handshake is done.
pub downloads-AreOrdered :
    (k : ℕ) (argv : List String) (env : Env)
    → Ordered is_early sftp_main k argv env
      × Ordered is_early sftp_nonblock_main k argv env
      × Ordered is_early scp_main k argv env
      × Ordered is_early scp_nonblock_main k argv env
      × Ordered is_early sftp_rw_nonblock_main k argv env
downloads-AreOrdered k argv env = (
  sftp_main-IsOrdered k argv env,
  sftp_nonblock_main-IsOrdered k argv env,
  scp_main-IsOrdered k argv env,
  scp_nonblock_main-IsOrdered k argv env,
  sftp_rw_nonblock_main-IsOrdered k argv env,
)

-- Whatever is answered, example/sftpdir.c, sftpdir_nonblock.c, sftp_mkdir.c, sftp_mkdir_nonblock.c and
-- ssh2.c keep the order of calls: no session before the socket is connected, no question for the login methods
-- and no login before the handshake, nothing else before a login with result 0. They return 0 only
-- after disconnect, free, close and libssh2_exit in this order, and another code only before the
-- handshake is done.
pub directories_and_shell-AreOrdered :
    (k : ℕ) (argv : List String) (env : Env)
    → Ordered is_early sftpdir_main k argv env
      × Ordered is_early sftpdir_nonblock_main k argv env
      × Ordered is_early sftp_mkdir_main k argv env
      × Ordered is_early sftp_mkdir_nonblock_main k argv env
      × Ordered is_early (λ rounds. ssh2_main) k argv env
directories_and_shell-AreOrdered k argv env = (
  sftpdir_main-IsOrdered k argv env,
  sftpdir_nonblock_main-IsOrdered k argv env,
  sftp_mkdir_main-IsOrdered k argv env,
  sftp_mkdir_nonblock_main-IsOrdered k argv env,
  ssh2_main-IsOrdered argv env,
)
