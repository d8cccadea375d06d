-- ===== src/Programs/Order/Listing.antt =====
-- The directory listings keep the order.
use Prim.Native.String.{String}
use cloudssh.Base.{ℕ, zero, suc, Bool, true, List, [], ◌++◌, refl, is_empty}
use cloudssh.Base.Int.{ℤ, pos, pos_part, is_pos, is_eagain}
use cloudssh.Base.Text.{codes, cstring}
use cloudssh.Api.{
  Stream, Env, result, contents, sftp_init, sftp_opendir, sftp_closedir, sftp_shutdown, dir_flags,
  dir_uid, dir_gid, dir_size, set_blocking,
}
use cloudssh.Programs.Start.{Main, arg, host_of, retry}
use cloudssh.Programs.Fetch.{option_arg}
use cloudssh.Programs.Listing.{
  attributes_line, print_attributes, print_entry, list_entries, readdir_retry, list_nonblock,
  sftpdir_main, sftpdir_nonblock_main,
}
use cloudssh.Programs.Order.{unit_label, Phase, is_early, Follows}
use cloudssh.Programs.Order.Rules.{
  Leads, bind-Leads, ◌⨾◌, keep, write-Leads, read-Leads, either, pure-Leads, spin-Leads,
}
use cloudssh.Programs.Order.Steps.{
  obtain-Leads, require-Leads, login-Leads, retry_login, start_library-Leads, connect_to-Leads,
}
use cloudssh.Programs.Order.Frame.{session_once, session_nonblocking, shutdown_once}
use cloudssh.Programs.Order.Loops.{Stays}
use cloudssh.Programs.Order.Fetch.{choose_login-Leads}

module _ {may_fail : Phase → Bool} where
  print_attributes-Leads : (name : List ℕ) → Stays may_fail (print_attributes name)
  unfolding print_attributes
  print_attributes-Leads name = bind-Leads (keep dir_flags (λ z. refl)) (λ flags.
      bind-Leads (keep dir_uid (λ z. refl)) (λ uid. bind-Leads (keep dir_gid (λ z. refl)) (λ gid.
        bind-Leads (keep dir_size (λ z. refl)) (λ size.
          write-Leads Stream.stdout
            (attributes_line name (pos_part flags) (pos_part uid) (pos_part gid) (pos_part size))
            (λ z. refl)))))

  print_entry-Leads : (name : List ℕ) → Stays may_fail (print_entry name)
  unfolding print_entry
  print_entry-Leads name = bind-Leads (read-Leads Stream.long_entry 512 (λ z. refl)) (λ longentry.
      either (is_empty (cstring (contents longentry))) (print_attributes-Leads name)
        (write-Leads Stream.stdout (cstring (contents longentry) ++ codes "\n") (λ z. refl)))

  list_entries-Leads :
      (print : List ℕ → Main ℤ)
      → ((name : List ℕ) → Stays may_fail (print name))
      → (k : ℕ) → Stays may_fail (list_entries print k)
  unfolding list_entries
  list_entries-Leads print h zero = spin-Leads refl
  list_entries-Leads print h (suc k) =
      bind-Leads (read-Leads Stream.remote_dir 512 (λ z. refl)) (λ rc.
        either (is_pos (result rc)) (h (contents rc) ⨾ list_entries-Leads print h k)
          (pure-Leads tt))

  readdir_retry-Leads : (k : ℕ) → Stays may_fail (readdir_retry k)
  unfolding readdir_retry
  readdir_retry-Leads zero = spin-Leads refl
  readdir_retry-Leads (suc k) =
      bind-Leads (read-Leads Stream.remote_dir 512 (λ z. refl))
        (λ rc. either (is_eagain (result rc)) (readdir_retry-Leads k) (pure-Leads rc))

  list_nonblock-Leads : (k : ℕ) → Stays may_fail (list_nonblock k)
  unfolding list_nonblock
  list_nonblock-Leads zero = spin-Leads refl
  list_nonblock-Leads (suc k) = bind-Leads (readdir_retry-Leads k) (λ rc.
      either (is_pos (result rc)) (print_attributes-Leads (contents rc) ⨾ list_nonblock-Leads k)
        (either (is_eagain (result rc)) (list_nonblock-Leads k) (pure-Leads tt)))

-- Whatever the server answers, example/sftpdir.c keeps the order of calls.
pub sftpdir_main-IsOrdered :
    (k : ℕ) (argv : List String) (env : Env)
    → Follows is_early (λ a. Phase.finished) (sftpdir_main k argv env [])
unfolding sftpdir_main
sftpdir_main-IsOrdered k argv env =
    let runs : Leads is_early Phase.fresh (sftpdir_main k argv) (λ a. Phase.finished) =
      start_library-Leads refl
      ⨾ connect_to-Leads (host_of argv) refl
      ⨾ session_once refl refl (
          shutdown_once (
            choose_login-Leads (option_arg 5 argv) (arg 2 "username" argv) (arg 3 "password" argv)
            ⨾ require-Leads sftp_init (λ z. refl)
            ⨾ keep (set_blocking true) (λ z. refl)
            ⨾ require-Leads (sftp_opendir (arg 4 "/tmp/secretdir" argv)) (λ z. refl)
            ⨾ list_entries-Leads print_entry print_entry-Leads k
            ⨾ keep sftp_closedir (λ z. refl)
            ⨾ keep sftp_shutdown (λ z. refl)
            ⨾ pure-Leads tt)) in
    runs.follows env [] refl

-- Whatever the server answers, example/sftpdir_nonblock.c keeps the order of calls.
pub sftpdir_nonblock_main-IsOrdered :
    (k : ℕ) (argv : List String) (env : Env)
    → Follows is_early (λ a. Phase.finished) (sftpdir_nonblock_main k argv env [])
unfolding sftpdir_nonblock_main
sftpdir_nonblock_main-IsOrdered k argv env =
    let runs : Leads is_early Phase.fresh (sftpdir_nonblock_main k argv) (λ a. Phase.finished) =
      start_library-Leads refl
      ⨾ connect_to-Leads (host_of argv) refl
      ⨾ session_nonblocking k refl refl (
          shutdown_once (
            login-Leads (λ c. retry c k) true (arg 2 "username" argv) (arg 3 "password" argv)
              (retry_login k (arg 2 "username" argv) (arg 3 "password" argv))
            ⨾ obtain-Leads sftp_init k (λ z. refl) (pure-Leads (pos 0))
            ⨾ obtain-Leads (sftp_opendir (arg 4 "/tmp/secretdir" argv)) k (λ z. refl)
                (pure-Leads (pos 0))
            ⨾ list_nonblock-Leads k
            ⨾ keep sftp_closedir (λ z. refl)
            ⨾ keep sftp_shutdown (λ z. refl)
            ⨾ pure-Leads tt)) in
    runs.follows env [] refl
