-- ===== src/Programs/Upload/Whole.antt =====
-- The upload programs from `main` on, against a server that refuses nothing.
use Prim.Native.String.{String}
use cloudssh.Base.{ℕ, suc, ◌+◌, ◌<◌, List, [], length, refl, true, false, arith}
use cloudssh.Base.Int.{pos, is_neg, pos_part}
use cloudssh.Api.{
  Stream, Env, Meets, Meets-mono, IsHonest, TakesSome, ReadsFile, received, sent, call, pure,
  fclose, set_blocking, session_disconnect, sftp_init, sftp_open, sftp_close, sftp_shutdown,
  sftp_fstat, sftp_seek, file_size, ◌>>◌,
}
use cloudssh.Upload.{sftp_write_data, sftp_append_data}
use cloudssh.Sliding.{sftp_write_sliding_data}
use cloudssh.Upload.Loop.{sftp_write_data-sends, sftp_append_data-sends}
use cloudssh.Sliding.Total.{sftp_write_sliding_data-sends}
use cloudssh.Programs.Start.{arg, host_of, retry, close_session, return_zero}
use cloudssh.Programs.Sftp.{
  fxf_read, fxf_write, fxf_creat, fxf_trunc, sftp_write_main, sftp_append_main,
  sftp_write_sliding_main,
}
use cloudssh.Programs.Upload.{IsWilling, Untouched, HasSent, leaving_sent}
use cloudssh.Programs.Upload.Rules.{
  Serves, bind-Serves, ◌⨾◌, pure-Serves, call-Serves, shutdown-Serves, returning, answered,
}
use cloudssh.Programs.Upload.Steps.{
  Untouched-IsQuiet, HasSent-IsQuiet, retry-Serves, start_library-Serves, open_local-Serves,
  connect_to-Serves, new_session-Serves, secure_at_once, secure_retried, show_fingerprint-Serves,
  login_at_once, login_retried, require-Serves, obtain-Serves, close_session-Serves,
  return_zero-Serves, unless_neg,
}

module _ {env : Env} (w : IsWilling env) (k : ℕ) (argv : List String) (content : List ℕ)
    (honest : IsHonest env Stream.remote_file) (some : TakesSome env Stream.remote_file)
    (file : ReadsFile env Stream.local_file content) where
  sftp_write_transfer :
      length content < k
      → Serves env
          (leaving_sent Stream.remote_file content)
          (Untouched Stream.remote_file)
          (sftp_write_data k (pos 0))
          (HasSent Stream.remote_file content)
  sftp_write_transfer room = record {
    runs =
        λ t (r, s). returning (sftp_write_data-sends k (pos 0) t content honest some file r s room);
  }

  -- Against a server that refuses nothing and takes a part of every write, with enough rounds for
  -- the length of the file, example/sftp_write.c returns 0, and the server has taken exactly the
  -- local file.
  pub sftp_write_main-uploads :
      length content < k
      → Meets (leaving_sent Stream.remote_file content) (λ _ _. ⊥) (sftp_write_main k argv env [])
  unfolding sftp_write_main received sent
  sftp_write_main-uploads room =
      let before = Untouched-IsQuiet Stream.remote_file in
      let after = HasSent-IsQuiet Stream.remote_file content in
      let runs : Serves env (leaving_sent Stream.remote_file content) (Untouched Stream.remote_file)
          (sftp_write_main k argv) (λ t. ⊥) =
        start_library-Serves w before
        ⨾ open_local-Serves w before (arg 4 "sftp_write.c" argv)
        ⨾ connect_to-Serves w before (host_of argv)
        ⨾ new_session-Serves w before
        ⨾ call-Serves before (set_blocking true)
        ⨾ secure_at_once w before
        ⨾ show_fingerprint-Serves w before
        ⨾ shutdown-Serves
            (λ u.
              close_session (call session_disconnect)
              >> call (fclose Stream.local_file)
              >> return_zero)
            (λ t j. j)
            (login_at_once w before true (arg 2 "username" argv) (arg 3 "password" argv)
              ⨾ require-Serves w before sftp_init w.has_sftp
              ⨾ require-Serves w before
                  (sftp_open (arg 5 "/tmp/TEST" argv) (fxf_write + fxf_creat + fxf_trunc))
                  (λ t. w.has_handle t (arg 5 "/tmp/TEST" argv) (fxf_write + fxf_creat + fxf_trunc))
              ⨾ sftp_write_transfer room
              ⨾ call-Serves after sftp_close
              ⨾ call-Serves after sftp_shutdown
              ⨾ pure-Serves tt)
            ((close_session-Serves w after (call session_disconnect)
                  (call-Serves after session_disconnect)
                ⨾ call-Serves after (fclose Stream.local_file))
              ⨾ return_zero-Serves Stream.remote_file content) in
      runs.runs [] (refl, refl)

  sftp_append_transfer :
      length content < k
      → Serves env
          (leaving_sent Stream.remote_file content)
          (Untouched Stream.remote_file)
          (sftp_append_data k (pos 0))
          (HasSent Stream.remote_file content)
  sftp_append_transfer room = record {
    runs = λ t (r, s).
        returning (sftp_append_data-sends k (pos 0) t content honest some file r s room);
  }

  -- Against a server that refuses nothing and takes a part of every write, with enough rounds for
  -- the length of the file, example/sftp_append.c returns 0, and the server has taken exactly the
  -- local file.
  pub sftp_append_main-uploads :
      length content < k
      → Meets (leaving_sent Stream.remote_file content) (λ _ _. ⊥) (sftp_append_main k argv env [])
  unfolding sftp_append_main received sent
  sftp_append_main-uploads room =
      let before = Untouched-IsQuiet Stream.remote_file in
      let after = HasSent-IsQuiet Stream.remote_file content in
      let runs : Serves env (leaving_sent Stream.remote_file content) (Untouched Stream.remote_file)
          (sftp_append_main k argv) (λ t. ⊥) =
        start_library-Serves w before
        ⨾ open_local-Serves w before (arg 4 "sftp_write.c" argv)
        ⨾ connect_to-Serves w before (host_of argv)
        ⨾ new_session-Serves w before
        ⨾ call-Serves before (set_blocking true)
        ⨾ secure_at_once w before
        ⨾ show_fingerprint-Serves w before
        ⨾ shutdown-Serves
            (λ u.
              close_session (call session_disconnect)
              >> call (fclose Stream.local_file)
              >> return_zero)
            (λ t j. j)
            (login_at_once w before true (arg 2 "username" argv) (arg 3 "password" argv)
              ⨾ require-Serves w before sftp_init w.has_sftp
              ⨾ require-Serves w before (sftp_open (arg 5 "/tmp/TEST" argv) (fxf_write + fxf_read))
                  (λ t. w.has_handle t (arg 5 "/tmp/TEST" argv) (fxf_write + fxf_read))
              ⨾ answered before sftp_fstat is_neg false w.has_stat (λ rc e.
                unless_neg w before rc e
                ⨾ bind-Serves (call-Serves before file_size) (λ filesize.
                  call-Serves before (sftp_seek (pos_part filesize))
                  ⨾ sftp_append_transfer room
                  ⨾ call-Serves after sftp_close
                  ⨾ call-Serves after sftp_shutdown
                  ⨾ pure-Serves tt)))
            ((close_session-Serves w after (call session_disconnect)
                  (call-Serves after session_disconnect)
                ⨾ call-Serves after (fclose Stream.local_file))
              ⨾ return_zero-Serves Stream.remote_file content) in
      runs.runs [] (refl, refl)

  sftp_write_sliding_transfer :
      length content < k
      → Serves env
          (leaving_sent Stream.remote_file content)
          (Untouched Stream.remote_file)
          (sftp_write_sliding_data (suc k))
          (HasSent Stream.remote_file content)
  sftp_write_sliding_transfer room = record {
    runs = λ t (r, s). returning (
        Meets-mono
          (sftp_write_sliding_data-sends (suc k) t content honest some file r s (omega arith))
          (λ mem u (e, d). d));
  }

  -- Against a server that refuses nothing and takes a part of every write, with enough rounds for
  -- the length of the file, example/sftp_write_sliding.c returns 0, and the server has taken exactly the
  -- local file.
  pub sftp_write_sliding_main-uploads :
      length content < k
      → Meets
          (leaving_sent Stream.remote_file content)
          (λ _ _. ⊥)
          (sftp_write_sliding_main (suc k) argv env [])
  unfolding sftp_write_sliding_main received sent
  sftp_write_sliding_main-uploads room =
      let before = Untouched-IsQuiet Stream.remote_file in
      let after = HasSent-IsQuiet Stream.remote_file content in
      let runs : Serves env (leaving_sent Stream.remote_file content) (Untouched Stream.remote_file)
          (sftp_write_sliding_main (suc k) argv) (λ t. ⊥) =
        start_library-Serves w before
        ⨾ open_local-Serves w before (arg 4 "sftp_write_nonblock.c" argv)
        ⨾ connect_to-Serves w before (host_of argv)
        ⨾ new_session-Serves w before
        ⨾ call-Serves before (set_blocking false)
        ⨾ secure_retried w before k
        ⨾ show_fingerprint-Serves w before
        ⨾ shutdown-Serves (λ u. close_session (retry session_disconnect (suc k)) >> return_zero)
            (λ t j. j)
            (login_retried w before k true (arg 2 "username" argv) (arg 3 "password" argv)
              ⨾ obtain-Serves w before (pure (pos 0)) sftp_init k w.has_sftp
              ⨾ obtain-Serves w before (pure (pos 0))
                  (sftp_open (arg 5 "/tmp/sftp_write_nonblock.c" argv)
                    (fxf_write + fxf_creat + fxf_trunc))
                  k
                  (λ t.
                    w.has_handle t (arg 5 "/tmp/sftp_write_nonblock.c" argv)
                      (fxf_write + fxf_creat + fxf_trunc))
              ⨾ sftp_write_sliding_transfer room
              ⨾ call-Serves after (fclose Stream.local_file)
              ⨾ call-Serves after sftp_close
              ⨾ call-Serves after sftp_shutdown
              ⨾ pure-Serves tt)
            (close_session-Serves w after (retry session_disconnect (suc k))
                (retry-Serves w after session_disconnect k w.parts)
              ⨾ return_zero-Serves Stream.remote_file content) in
      runs.runs [] (refl, refl)
