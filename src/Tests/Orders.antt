-- ===== src/Tests/Orders.antt =====
-- Whole programs against the slow server.
use Prim.Native.String.{String}
use cloudssh.Base.{List, [], ◌∷◌, refl}
use cloudssh.Programs.Sftp.{
  sftp_nonblock_main, sftp_mkdir_main, sftp_mkdir_nonblock_main, sftp_write_main, sftp_append_main,
  sftp_write_nonblock_main, sftp_write_sliding_main,
}
use cloudssh.Programs.Scp.{scp_main, scp_nonblock_main, scp_write_main, scp_write_nonblock_main}
use cloudssh.Programs.Exec.{ssh2_exec_main}
use cloudssh.Programs.Fetch.{sftp_main}
use cloudssh.Programs.Listing.{sftpdir_main, sftpdir_nonblock_main}
use cloudssh.Programs.Shell.{ssh2_main}
use cloudssh.Programs.Refetch.{sftp_rw_nonblock_main}
use cloudssh.Programs.Start.{arg}
use cloudssh.Programs.Echo.{ssh2_echo_main}
use cloudssh.Programs.Order.{unit_label, Phase, Follows, is_early, is_live}
use cloudssh.Programs.Order.Groups.{
  Ordered, uploads-AreOrdered, downloads-AreOrdered, directories_and_shell-AreOrdered,
}
use cloudssh.Programs.Order.Exec.{ssh2_exec_main-IsOrdered}
use cloudssh.Programs.Order.Echo.{may_leave, ssh2_echo_main-IsOrdered}
use cloudssh.Tests.Server.{slow_server}

abbrev arguments : List String
arguments = "10.0.0.1" ∷ "user" ∷ "secret" ∷ "one" ∷ "two" ∷ []

uploads-AreOrdered_example :
    Ordered is_early sftp_write_main 20 arguments slow_server
    × Ordered is_early sftp_append_main 20 arguments slow_server
    × Ordered is_early sftp_write_nonblock_main 20 arguments slow_server
    × Ordered is_early sftp_write_sliding_main 20 arguments slow_server
    × Ordered is_early scp_write_main 20 arguments slow_server
    × Ordered is_early scp_write_nonblock_main 20 arguments slow_server
uploads-AreOrdered_example = uploads-AreOrdered 20 arguments slow_server

downloads-AreOrdered_example :
    Ordered is_early sftp_main 20 arguments slow_server
    × Ordered is_early sftp_nonblock_main 20 arguments slow_server
    × Ordered is_early scp_main 20 arguments slow_server
    × Ordered is_early scp_nonblock_main 20 arguments slow_server
    × Ordered is_early sftp_rw_nonblock_main 20 arguments slow_server
downloads-AreOrdered_example = downloads-AreOrdered 20 arguments slow_server

directories_and_shell-AreOrdered_example :
    Ordered is_early sftpdir_main 20 arguments slow_server
    × Ordered is_early sftpdir_nonblock_main 20 arguments slow_server
    × Ordered is_early sftp_mkdir_main 20 arguments slow_server
    × Ordered is_early sftp_mkdir_nonblock_main 20 arguments slow_server
    × Ordered is_early (λ rounds. ssh2_main) 20 arguments slow_server
directories_and_shell-AreOrdered_example = directories_and_shell-AreOrdered 20 arguments slow_server

ssh2_exec_main-IsOrdered_example :
    Follows is_live (λ a. Phase.finished) (ssh2_exec_main 20 arguments slow_server [])
ssh2_exec_main-IsOrdered_example = ssh2_exec_main-IsOrdered 20 arguments slow_server

ssh2_echo_main-IsOrdered_example :
    Follows may_leave (λ a. Phase.finished) (ssh2_echo_main 20 arguments slow_server [])
unfolding arg
ssh2_echo_main-IsOrdered_example = ssh2_echo_main-IsOrdered 20 arguments slow_server refl
