-- ===== src/Programs/Order/Refetch.antt =====
-- The program that uploads what it downloaded keeps the order.
use Prim.Native.String.{String}
use cloudssh.Base.{ℕ, zero, suc, ◌+◌, Bool, true, false, List, [], refl, is_empty, if◌then◌else◌}
use cloudssh.Base.Int.{ℤ, pos, is_zero, is_neg, is_pos, is_eagain}
use cloudssh.Api.{
  Stream, Sock, Host, Env, pure, ◌>>◌, contents, read, fopen, fclose, session_disconnect, call,
  set_blocking, select_both, sftp_init, sftp_shutdown, sftp_close, sftp_open,
}
use cloudssh.Download.{store, rw_download}
use cloudssh.Reupload.{rw_block, rw_upload}
use cloudssh.Programs.Start.{arg, retry, close_session, return_zero}
use cloudssh.Programs.Sftp.{fxf_read, fxf_write, fxf_creat}
use cloudssh.Programs.Refetch.{open_storage, fetch_to_storage, send_storage, sftp_rw_nonblock_main}
use cloudssh.Programs.Order.{unit_label, Label, Phase, is_early, Follows}
use cloudssh.Programs.Order.Rules.{
  Leads, bind-Leads, ◌⨾◌, call-Leads, keep, read-Leads, write-Leads, either, pure-Leads, goto-Leads,
  spin-Leads, jumping_with-Leads, shutdown-Leads,
}
use cloudssh.Programs.Order.Steps.{
  obtain-Leads, login-Leads, retry_login, start_library-Leads, connect_to-Leads, new_session-Leads,
  shake_once, show_fingerprint-Leads, close_session-Leads, return_zero-Leads, waitsocket-Leads,
}
use cloudssh.Programs.Order.Loops.{Stays, drain-Leads}

instance abbrev storage_label : Label ℤ
storage_label = record { untrusted = λ z. true }

module _ {may_fail : Phase → Bool} where
  store-Leads : (bs : List ℕ) → Stays may_fail (store bs)
  unfolding store
  store-Leads bs =
      write-Leads Stream.stderr bs (λ z. refl) ⨾ write-Leads Stream.temp_file bs (λ z. refl)

  rw_download-Leads : (k : ℕ) → Stays may_fail (rw_download k)
  unfolding rw_download
  rw_download-Leads zero = spin-Leads refl
  rw_download-Leads (suc k) =
      bind-Leads
        (drain-Leads (read Stream.remote_file 1000) store
          (read-Leads Stream.remote_file 1000 (λ z. refl)) store-Leads k)
        (λ rc.
          either (is_eagain rc)
            (bind-Leads (keep (select_both Sock.ssh_sock) (λ z. refl))
              (λ ready. either (is_pos ready) (rw_download-Leads k) (pure-Leads ready)))
            (pure-Leads rc))

  rw_block-Leads :
      (k : ℕ) (buf : List ℕ)
      → Leads {J = ℤ} may_fail Phase.trusted (rw_block k buf) (λ z. Phase.trusted)
  unfolding rw_block
  rw_block-Leads zero buf = spin-Leads refl
  rw_block-Leads (suc k) buf =
      bind-Leads (write-Leads Stream.remote_file buf (λ z. refl))
        (λ rc. either (is_neg rc) (pure-Leads rc) (rw_block-Leads k []))

  rw_upload-Leads :
      (k : ℕ) (rc : ℤ) → Leads {J = ℤ} may_fail Phase.trusted (rw_upload k rc) (λ z. Phase.trusted)
  unfolding rw_upload
  rw_upload-Leads zero rc = spin-Leads refl
  rw_upload-Leads (suc k) rc = bind-Leads (read-Leads Stream.temp_file 1000 (λ z. refl)) (λ nread.
      either (is_empty (contents nread)) (pure-Leads rc) (
        bind-Leads (rw_block-Leads k (contents nread)) (λ rc'.
          either (is_eagain rc')
            (bind-Leads (keep (select_both Sock.ssh_sock) (λ z. refl))
              (λ ready. either (is_pos ready) (rw_upload-Leads k ready) (pure-Leads ready)))
            (pure-Leads rc'))))

  fetch_to_storage-Leads :
      (k : ℕ) (argv : List String)
      → Leads may_fail Phase.secured (fetch_to_storage k argv) (λ z. Phase.trusted)
  unfolding fetch_to_storage
  fetch_to_storage-Leads k argv =
      login-Leads (λ c. retry c k) true (arg 1 "username" argv) (arg 2 "password" argv)
        (retry_login k (arg 1 "username" argv) (arg 2 "password" argv))
      ⨾ obtain-Leads sftp_init k (λ z. refl) waitsocket-Leads
      ⨾ obtain-Leads (sftp_open (arg 3 "/tmp/TEST" argv) fxf_read) k (λ z. refl) waitsocket-Leads
      ⨾ rw_download-Leads k
      ⨾ keep sftp_close (λ z. refl)
      ⨾ keep (fclose Stream.temp_file) (λ z. refl)

  storage_secured : Leads {J = ℤ} may_fail Phase.secured open_storage (λ z. Phase.secured)
  unfolding open_storage
  storage_secured =
      bind-Leads (keep (fopen Stream.temp_file "/tmp/sftp-storage") (λ z. refl))
        (λ z. either (is_zero z) (goto-Leads z refl) (pure-Leads z))

  send_storage-Leads :
      (k : ℕ) (argv : List String)
      → Leads {J = ℤ} may_fail Phase.trusted (send_storage k argv) (λ z. Phase.trusted)
  unfolding send_storage open_storage
  send_storage-Leads k argv =
      bind-Leads
        (bind-Leads (keep (fopen Stream.temp_file "/tmp/sftp-storage") (λ z. refl))
          (λ z. either (is_zero z) (goto-Leads z refl) (pure-Leads {q = λ z. Phase.trusted} z)))
        (λ tempstorage.
          bind-Leads
            (keep (sftp_open (arg 4 "/tmp/TEST2" argv) (fxf_write + fxf_creat)) (λ z. refl))
            (λ sftp_handle.
              either (is_zero sftp_handle) (pure-Leads {q = λ z. Phase.trusted} (pos 0))
                (rw_upload-Leads k (pos 0))
              ⨾ keep sftp_shutdown (λ z. refl)
              ⨾ pure-Leads tempstorage))

-- Whatever the server answers, example/sftp_RW_nonblock.c keeps the order of calls.
pub sftp_rw_nonblock_main-IsOrdered :
    (k : ℕ) (argv : List String) (env : Env)
    → Follows is_early (λ a. Phase.finished) (sftp_rw_nonblock_main k argv env [])
unfolding sftp_rw_nonblock_main
sftp_rw_nonblock_main-IsOrdered k argv env =
    let ending : (tempstorage : ℤ) (p : Phase)
        → Leads {J = Unit {0}} is_early p (call session_disconnect) (λ z. Phase.parted)
        → Leads is_early p
            ((close_session (call session_disconnect)
                >> (if is_zero tempstorage then pure (pos 0) else call (fclose Stream.temp_file)))
              >> return_zero)
            (λ a. Phase.finished) =
      λ tempstorage p parted.
        (close_session-Leads (call session_disconnect) parted
          ⨾ either (is_zero tempstorage) (pure-Leads {q = λ z. Phase.closed} (pos 0))
              (keep (fclose Stream.temp_file) (λ z. refl)))
        ⨾ return_zero-Leads in
    let runs : Leads is_early Phase.fresh (sftp_rw_nonblock_main k argv) (λ a. Phase.finished) =
      start_library-Leads refl
      ⨾ connect_to-Leads Host.loopback refl
      ⨾ new_session-Leads refl
      ⨾ shake_once refl
      ⨾ keep (set_blocking false) (λ z. refl)
      ⨾ show_fingerprint-Leads
      ⨾ shutdown-Leads {q = λ j. Phase.trusted} (λ j. refl)
          (bind-Leads storage_secured (λ tempstorage.
            jumping_with-Leads tempstorage refl (fetch_to_storage-Leads k argv)
            ⨾ send_storage-Leads k argv))
          (λ j allowed. ending j Phase.secured (call-Leads session_disconnect))
          (λ j. ending j Phase.trusted (call-Leads session_disconnect)) in
    runs.follows env [] refl
