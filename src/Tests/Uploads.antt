-- ===== src/Tests/Uploads.antt =====
-- Whole uploads to the slow server, and the choice of a login method.
use Prim.Native.String.{String}
use cloudssh.Base.{List, [], ◌∷◌, ◌≡◌, refl, true, some, arith}
use cloudssh.Base.Text.{codes}
use cloudssh.Api.{Stream, Method, Meets}
use cloudssh.Auth.{offers, selected, same_text}
use cloudssh.Auth.Choice.{selected-IsOffered, selected-wanted}
use cloudssh.Programs.Sftp.{sftp_write_main, sftp_append_main, sftp_write_sliding_main}
use cloudssh.Programs.Upload.{IsWilling, leaving_sent}
use cloudssh.Programs.Upload.Whole.{
  sftp_write_main-uploads, sftp_append_main-uploads, sftp_write_sliding_main-uploads,
}
use cloudssh.Tests.Server.{file, slow_server, slow-IsHonest, slow-TakesSome, slow-ReadsFile}

abbrev arguments : List String
arguments = "10.0.0.1" ∷ "user" ∷ "secret" ∷ "one" ∷ "two" ∷ []

slow-IsWilling : IsWilling slow_server
slow-IsWilling = record {
  starts = λ t. refl;
  has_file = λ t name. refl;
  has_socket = λ t. refl;
  connects = λ t host. refl;
  has_session = λ t. refl;
  shakes = λ t. refl;
  has_key = λ t. refl;
  trusts = λ t m u pw. refl;
  has_sftp = λ t. refl;
  has_handle = λ t path flags. refl;
  has_stat = λ t. refl;
  has_channel = λ t path. refl;
  parts = λ t. refl;
}

sftp_write_main-uploads_example :
    Meets
      (leaving_sent Stream.remote_file file)
      (λ _ _. ⊥)
      (sftp_write_main 9 arguments slow_server [])
sftp_write_main-uploads_example =
    sftp_write_main-uploads slow-IsWilling 9 arguments file (slow-IsHonest Stream.remote_file)
      (slow-TakesSome Stream.remote_file) (slow-ReadsFile Stream.local_file) (omega arith)

sftp_append_main-uploads_example :
    Meets
      (leaving_sent Stream.remote_file file)
      (λ _ _. ⊥)
      (sftp_append_main 9 arguments slow_server [])
sftp_append_main-uploads_example =
    sftp_append_main-uploads slow-IsWilling 9 arguments file (slow-IsHonest Stream.remote_file)
      (slow-TakesSome Stream.remote_file) (slow-ReadsFile Stream.local_file) (omega arith)

sftp_write_sliding_main-uploads_example :
    Meets
      (leaving_sent Stream.remote_file file)
      (λ _ _. ⊥)
      (sftp_write_sliding_main 9 arguments slow_server [])
sftp_write_sliding_main-uploads_example =
    sftp_write_sliding_main-uploads slow-IsWilling 8 arguments file
      (slow-IsHonest Stream.remote_file) (slow-TakesSome Stream.remote_file)
      (slow-ReadsFile Stream.local_file) (omega arith)

abbrev methods : String
methods = "publickey,keyboard-interactive"

selected-IsOffered_example : offers "keyboard-interactive" (codes methods) ≡ true
unfolding selected same_text
selected-IsOffered_example =
    selected-IsOffered (some "-p") (codes methods) Method.keyboard_interactive refl

selected-wanted_example : selected (some "-K") (codes methods) ≡ some Method.publickey
unfolding offers same_text
selected-wanted_example = selected-wanted "-K" (codes methods) Method.publickey refl refl
