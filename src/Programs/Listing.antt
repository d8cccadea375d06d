-- ===== src/Programs/Listing.antt =====
-- The directory listings: example/sftpdir.c and sftpdir_nonblock.c.
pub mod Lines
use Prim.Native.String.{String}
use cloudssh.Base.{
  ℕ, zero, suc, ◌+◌, ◌-◌, ◌/◌, ◌%◌, ◌==◌, ltb, Bool, true, false, List, [], ◌∷◌, ◌++◌, length,
  is_empty, replicate, if◌then◌else◌,
}
use cloudssh.Base.Int.{ℤ, pos, pos_part, is_pos, is_eagain}
use cloudssh.Base.Text.{codes, cstring, digits}
use cloudssh.Api.{
  Stream, Input, Prog, result, contents, call, read, write, pure, out_of_rounds, at_shutdown, ◌>>=◌,
  ◌>>◌, set_blocking, session_handshake, session_disconnect, sftp_init, sftp_opendir, sftp_closedir,
  sftp_shutdown, dir_flags, dir_uid, dir_gid, dir_size, waitsocket,
}
use cloudssh.Programs.Start.{
  Main, arg, host_of, retry, obtain, require, start_library, connect_to, new_session, secure,
  show_fingerprint, login, close_session, return_zero,
}
use cloudssh.Programs.Fetch.{option_arg, choose_login}

-- LIBSSH2_SFTP_ATTR_SIZE is 1, LIBSSH2_SFTP_ATTR_UIDGID is 2 and LIBSSH2_SFTP_ATTR_PERMISSIONS is 4.
abbrev pub has_attribute : ℕ → ℕ → Bool
has_attribute flags n = flags / n % 2 == 1

-- A number right-aligned in a field: "%4ld" and "%8lu".
unfoldable pub field : ℕ → ℕ → List ℕ
unfolding digits
field width n = replicate (width - length (digits 20 n)) 32 ++ digits 20 n

-- The name and the attributes of an entry as one line of the listing.
unfoldable pub attributes_line : List ℕ → ℕ → ℕ → ℕ → ℕ → List ℕ
unfolding field cstring
attributes_line name flags uid gid size =
    (if has_attribute flags 4 then codes "--fix----- " else codes "---------- ")
    ++ (if has_attribute flags 2
        then field 4 uid ++ codes " " ++ field 4 gid ++ codes " "
        else codes "   -    - ")
    ++ (if has_attribute flags 1 then field 8 size ++ codes " " else [])
    ++ cstring name
    ++ codes "\n"

-- printf of the attributes. An id of a `long` is written without a sign: it is a 32-bit number.
unfoldable pub print_attributes : List ℕ → Main ℤ
unfolding attributes_line
print_attributes name = do
  flags ← call dir_flags
  uid ← call dir_uid
  gid ← call dir_gid
  size ← call dir_size
  write Stream.stdout
      (attributes_line name (pos_part flags) (pos_part uid) (pos_part gid) (pos_part size))

-- sftpdir.c prints the long form of an entry, where there is one.
unfoldable pub print_entry : List ℕ → Main ℤ
unfolding print_attributes cstring
print_entry name = do
  longentry ← read Stream.long_entry 512
  if is_empty (cstring (contents longentry))
      then print_attributes name
      else write Stream.stdout (cstring (contents longentry) ++ codes "\n")

-- The loop over the entries, until a read gives no name.
unfoldable pub list_entries : (List ℕ → Main ℤ) → ℕ → Main (Unit {0})
list_entries print zero = out_of_rounds
list_entries print (suc k) = do
  rc ← read Stream.remote_dir 512
  if is_pos (result rc) then print (contents rc) >> list_entries print k else pure tt

unfoldable pub readdir_retry : ℕ → Main Input
readdir_retry zero = out_of_rounds
readdir_retry (suc k) = do
  rc ← read Stream.remote_dir 512
  if is_eagain (result rc) then readdir_retry k else pure rc

-- sftpdir_nonblock.c repeats a read that would block.
unfoldable pub list_nonblock : ℕ → Main (Unit {0})
unfolding readdir_retry print_attributes
list_nonblock zero = out_of_rounds
list_nonblock (suc k) = do
  rc ← readdir_retry k
  if is_pos (result rc)
      then print_attributes (contents rc) >> list_nonblock k
      else if is_eagain (result rc)
      then list_nonblock k
      else pure tt

unfoldable pub sftpdir_main : ℕ → List String → Main ℤ
unfolding list_entries print_entry
sftpdir_main k argv = do
  start_library
  connect_to (host_of argv)
  new_session
  secure (call session_handshake)
  show_fingerprint
  at_shutdown
      (do
        choose_login (option_arg 5 argv) (arg 2 "username" argv) (arg 3 "password" argv)
        require sftp_init
        call (set_blocking true)
        require (sftp_opendir (arg 4 "/tmp/secretdir" argv))
        list_entries print_entry k
        call sftp_closedir
        call sftp_shutdown
        pure tt)
      (λ u. close_session (call session_disconnect) >> return_zero)

unfoldable pub sftpdir_nonblock_main : ℕ → List String → Main ℤ
unfolding list_nonblock
sftpdir_nonblock_main k argv = do
  start_library
  connect_to (host_of argv)
  new_session
  call (set_blocking false)
  secure (retry session_handshake k)
  show_fingerprint
  at_shutdown
      (do
        login (λ c. retry c k) true (arg 2 "username" argv) (arg 3 "password" argv)
        obtain (pure (pos 0)) sftp_init k
        obtain (pure (pos 0)) (sftp_opendir (arg 4 "/tmp/secretdir" argv)) k
        list_nonblock k
        call sftp_closedir
        call sftp_shutdown
        pure tt)
      (λ u. close_session (call session_disconnect) >> return_zero)
