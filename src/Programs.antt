-- ===== src/Programs.antt =====
-- The `main` functions of example/, from the arguments to the exit code. Diagnostics on stderr
-- are left out, and so are gettimeofday and time, whose results are only printed.
pub mod Start
pub mod Sftp
pub mod Scp
pub mod Exec
pub mod Fetch
pub mod Echo
pub mod Listing
pub mod Shell
pub mod Agent
pub mod Refetch
pub mod X11Main
pub mod Tunnel
pub mod Remote
pub mod Order
pub mod Upload
