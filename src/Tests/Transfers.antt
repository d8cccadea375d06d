-- ===== src/Tests/Transfers.antt =====
-- Transfers between the small servers and files.
use cloudssh.Base.{replicate, true, [], ◌∷◌, ◌++◌, ◌≡◌, refl, ◌⊎◌, arith}
use cloudssh.Base.Int.{is_neg, pos}
use cloudssh.Api.{Stream, Meets, sent, offered, received, spin, Trace}
use cloudssh.Upload.{sftp_write_data, sftp_write_nonblock_data, scp_write_nonblock_data}
use cloudssh.Upload.Chunk.{within, IsSentPart}
use cloudssh.Upload.Loop.{
  Uploaded, sftp_write_data-Uploaded, sftp_write_nonblock_data-Uploaded,
  scp_write_nonblock_data-Uploaded,
}
use cloudssh.Sliding.{sftp_write_sliding_data}
use cloudssh.Sliding.Window.{IsWindow, sftp_write_sliding_data-IsWindow}
use cloudssh.Download.{sftp_data, sftp_nonblock_data, rw_download, scp_loop, scp_nonblock_loop}
use cloudssh.Download.Copy.{IsCopied, downloads-AreCopied, IsDownload, sftp_data-fetches}
use cloudssh.Download.Scp.{
  HasGot, EndsInError, scp_loop-HasGot, scp_nonblock_loop-HasGot, scp_loop-spins,
}
use cloudssh.Forward.{direct_tcpip_loop, tcpip_forward_loop}
use cloudssh.Forward.Relay.{jumping_off, direct_tcpip_loop-relays}
use cloudssh.Forward.Resend.{tcpip_forward_loop-relays}
use cloudssh.Reupload.{rw_block}
use cloudssh.Reupload.Cut.{rw_block-cuts}
use cloudssh.Programs.Echo.{Echo}
use cloudssh.Tests.Server.{
  file, slow_server, fast_server, closed_server, slow-IsHonest, fast-IsHonest, fast-TakesAll,
  slow-ReadsFile,
}

sftp_write_data-Uploaded_example :
    Meets {J = Unit {0}}
      (within (IsSentPart Stream.remote_file))
      (Uploaded Stream.remote_file)
      (sftp_write_data 9 (pos 0) slow_server [])
unfolding sent received
sftp_write_data-Uploaded_example =
    sftp_write_data-Uploaded 9 (pos 0) [] (slow-IsHonest Stream.remote_file) refl

sftp_write_nonblock_data-Uploaded_example :
    Meets {J = Unit {0}}
      (within (IsSentPart Stream.remote_file))
      (Uploaded Stream.remote_file)
      (sftp_write_nonblock_data 9 (pos 0) slow_server [])
unfolding sent received
sftp_write_nonblock_data-Uploaded_example =
    sftp_write_nonblock_data-Uploaded 9 (pos 0) [] (slow-IsHonest Stream.remote_file) refl

scp_write_nonblock_data-Uploaded_example :
    Meets {J = Unit {0}}
      (within (IsSentPart Stream.channel))
      (Uploaded Stream.channel)
      (scp_write_nonblock_data 9 (pos 0) slow_server [])
unfolding sent received
scp_write_nonblock_data-Uploaded_example =
    scp_write_nonblock_data-Uploaded 9 (pos 0) [] (slow-IsHonest Stream.channel) refl

sftp_write_sliding_data-IsWindow_example :
    Meets {J = Unit {0}}
      (within (IsSentPart Stream.remote_file))
      IsWindow
      (sftp_write_sliding_data 9 slow_server [])
unfolding sent received
sftp_write_sliding_data-IsWindow_example =
    sftp_write_sliding_data-IsWindow 9 [] (slow-IsHonest Stream.remote_file)
      (slow-IsHonest Stream.local_file) refl

downloads-AreCopied_example :
    IsDownload {J = Unit {0}} Stream.stdout (sftp_data 9 slow_server [])
    × IsDownload {J = Unit {0}} Stream.stdout (sftp_nonblock_data 9 slow_server [])
    × IsDownload {J = Unit {0}} Stream.temp_file (rw_download 9 slow_server [])
unfolding offered received
downloads-AreCopied_example = downloads-AreCopied slow_server 9 [] refl refl

sftp_data-fetches_example :
    Meets {J = Unit {0}}
      (within (λ _. ⊥))
      (λ _ u. offered Stream.stdout u ≡ file)
      (sftp_data 9 slow_server [])
unfolding offered received
sftp_data-fetches_example =
    sftp_data-fetches 9 [] file file (slow-ReadsFile Stream.remote_file) refl refl (omega arith)

scp_loop-HasGot_example :
    Meets {J = Unit {0}}
      (within (IsCopied Stream.channel Stream.stdout))
      (λ got' u. HasGot 5 got' u × ((got' ≡ 5) ⊎ EndsInError u))
      (scp_loop 5 9 0 slow_server [])
unfolding offered received
scp_loop-HasGot_example =
    scp_loop-HasGot (slow-IsHonest Stream.channel) 5 9 0 [] (refl, refl, omega arith)

scp_nonblock_loop-HasGot_example :
    Meets {J = Unit {0}}
      (within (IsCopied Stream.channel Stream.stdout))
      (HasGot 5)
      (scp_nonblock_loop 5 9 0 slow_server [])
unfolding offered received
scp_nonblock_loop-HasGot_example =
    scp_nonblock_loop-HasGot (slow-IsHonest Stream.channel) 5 9 0 [] (refl, refl, omega arith)

scp_loop-spins_example : (u : Trace) × (scp_loop {J = Unit {0}} 5 9 0 closed_server [] ≡ spin u)
scp_loop-spins_example = scp_loop-spins closed_server 5 9 0 [] (omega arith) (λ u n. refl)

direct_tcpip_loop-relays_example :
    Meets {A = Unit {0}} jumping_off (λ _ _. ⊥) (direct_tcpip_loop (tt {0}) 9 slow_server [])
unfolding sent received
direct_tcpip_loop-relays_example =
    direct_tcpip_loop-relays (tt {0}) (slow-IsHonest Stream.channel)
      (slow-IsHonest Stream.forward_sock) 9 [] (refl, refl)

tcpip_forward_loop-relays_example :
    Meets {A = Unit {0}} jumping_off (λ _ _. ⊥) (tcpip_forward_loop (tt {0}) 9 fast_server [])
unfolding sent received
tcpip_forward_loop-relays_example =
    tcpip_forward_loop-relays (tt {0}) (fast-TakesAll Stream.channel) 9 []
      (fast-IsHonest Stream.channel) (fast-IsHonest Stream.forward_sock) (refl, refl)

rw_block-cuts_example :
    Meets {J = Unit {0}}
      (within (λ u. sent Stream.remote_file u ≡ sent Stream.remote_file [] ++ (1 ∷ 2 ∷ [])))
      (λ rc u.
        (is_neg rc ≡ true)
        × (sent Stream.remote_file u ≡ sent Stream.remote_file [] ++ (1 ∷ 2 ∷ [])))
      (rw_block 9 (1 ∷ 2 ∷ 3 ∷ []) slow_server [])
rw_block-cuts_example = rw_block-cuts slow_server 8 [] (1 ∷ 2 ∷ 3 ∷ [])

abbrev ready : Echo
ready = record { buffer = replicate 32000 65; totwritten = 0; totread = 0; events = 5 }
