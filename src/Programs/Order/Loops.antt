-- ===== src/Programs/Order/Loops.antt =====
-- The loops over the data keep the order.
use cloudssh.Base.{
  ℕ, zero, suc, Bool, true, List, [], ◌++◌, ◌&&◌, ◌+◌, ◌*◌, ◌-◌, length, is_empty, ◌≡◌, refl, ltb,
}
use cloudssh.Base.Int.{ℤ, pos, is_eagain, is_neg, is_pos}
use cloudssh.Api.{read, write, Stream, Input, Prog, write, result, contents}
use cloudssh.Upload.{
  write_chunk, write_retry, send_file, sftp_write_data, sftp_append_data, sftp_write_nonblock_data,
  scp_write_data, scp_write_nonblock_data,
}
use cloudssh.Sliding.{mem_size, sliding_loop, sftp_write_sliding_data}
use cloudssh.Download.{
  amount, read_retry, drain, sftp_data, sftp_nonblock_data, scp_loop, scp_block, scp_nonblock_loop,
}
use cloudssh.Programs.Exec.{exec_loop}
use cloudssh.Programs.Order.{unit_label, Phase, step, kind_of_stream}
use cloudssh.Programs.Order.Rules.{
  Leads, bind-Leads, ◌⨾◌, write-Leads, read-Leads, either, pure-Leads, spin-Leads, advance-Leads,
}
use cloudssh.Programs.Order.Steps.{waitsocket-Leads}

-- A part of a program that needs the login and leaves it.
abbrev pub Stays : {A : Type 0} → (Phase → Bool) → Prog (Unit {0}) A → Type 0
Stays may_fail m = Leads may_fail Phase.trusted m (λ a. Phase.trusted)

module _ {may_fail : Phase → Bool} where
  write_chunk-Leads :
      (w : List ℕ → Prog (Unit {0}) ℤ)
      → ((bs : List ℕ) → Stays may_fail (w bs))
      → (k : ℕ) (buf : List ℕ) → Stays may_fail (write_chunk w k buf)
  unfolding write_chunk
  write_chunk-Leads w h zero buf = spin-Leads refl
  write_chunk-Leads w h (suc k) buf = bind-Leads (h buf) (λ rc.
      either (is_neg rc) (pure-Leads (rc, buf)) (
        bind-Leads (advance-Leads rc buf refl)
          (λ rest. either (is_empty rest) (pure-Leads (rc, rest)) (write_chunk-Leads w h k rest))))

  write_retry-Leads :
      (s : Stream) (stays : (z : ℤ) → step Phase.trusted (kind_of_stream s) z ≡ Phase.trusted)
      (k : ℕ) (buf : List ℕ)
      → Stays may_fail (write_retry s k buf)
  unfolding write_retry
  write_retry-Leads s stays zero buf = spin-Leads refl
  write_retry-Leads s stays (suc k) buf = bind-Leads (write-Leads s buf stays) (λ rc.
      either (is_eagain rc) (waitsocket-Leads ⨾ write_retry-Leads s stays k buf) (pure-Leads rc))

  send_file-Leads :
      (w : List ℕ → Prog (Unit {0}) ℤ) (go_on : ℤ → List ℕ → Bool) (size : ℕ)
      → ((bs : List ℕ) → Stays may_fail (w bs))
      → (k : ℕ) (rc : ℤ) → Stays may_fail (send_file w go_on size k rc)
  unfolding send_file
  send_file-Leads w go_on size h zero rc = spin-Leads refl
  send_file-Leads w go_on size h (suc k) rc =
      bind-Leads (read-Leads Stream.local_file size (λ z. refl)) (λ nread.
        either (is_empty (contents nread)) (pure-Leads rc) (
          bind-Leads (write_chunk-Leads w h k (contents nread)) (λ (rc', rest).
            either (go_on rc' rest) (send_file-Leads w go_on size h k rc') (pure-Leads rc'))))

  pub sftp_write_data-Leads : (k : ℕ) (rc : ℤ) → Stays may_fail (sftp_write_data k rc)
  unfolding sftp_write_data
  sftp_write_data-Leads k rc =
      send_file-Leads _ _ _ (λ bs. write-Leads Stream.remote_file bs (λ z. refl)) k rc

  pub sftp_append_data-Leads : (k : ℕ) (rc : ℤ) → Stays may_fail (sftp_append_data k rc)
  unfolding sftp_append_data
  sftp_append_data-Leads k rc =
      send_file-Leads _ _ _ (λ bs. write-Leads Stream.remote_file bs (λ z. refl)) k rc

  pub sftp_write_nonblock_data-Leads :
      (k : ℕ) (rc : ℤ) → Stays may_fail (sftp_write_nonblock_data k rc)
  unfolding sftp_write_nonblock_data
  sftp_write_nonblock_data-Leads k rc =
      send_file-Leads _ _ _ (write_retry-Leads Stream.remote_file (λ z. refl) k) k rc

  pub scp_write_data-Leads : (k : ℕ) (rc : ℤ) → Stays may_fail (scp_write_data k rc)
  unfolding scp_write_data
  scp_write_data-Leads k rc =
      send_file-Leads (write Stream.channel) (λ rc rest. true) 1024
        (λ bs. write-Leads Stream.channel bs (λ z. refl)) k rc

  pub scp_write_nonblock_data-Leads :
      (k : ℕ) (rc : ℤ) → Stays may_fail (scp_write_nonblock_data k rc)
  unfolding scp_write_nonblock_data
  scp_write_nonblock_data-Leads k rc =
      send_file-Leads _ _ _ (write_retry-Leads Stream.channel (λ z. refl) k) k rc

  sliding_loop-Leads : (k : ℕ) (mem : List ℕ) → Stays may_fail (sliding_loop k mem)
  unfolding sliding_loop
  sliding_loop-Leads zero mem = spin-Leads refl
  sliding_loop-Leads (suc k) mem =
      bind-Leads (read-Leads Stream.local_file (mem_size - length mem) (λ z. refl)) (λ nread.
        let filled = mem ++ contents nread in
        either (is_empty (contents nread) && is_empty mem) (pure-Leads mem) (
          bind-Leads (write_retry-Leads Stream.remote_file (λ z. refl) k filled) (λ rc.
            either (is_neg rc) (pure-Leads filled) (
              bind-Leads (advance-Leads rc filled refl)
                (λ rest. either (is_pos rc) (sliding_loop-Leads k rest) (pure-Leads rest))))))

  pub sftp_write_sliding_data-Leads : (k : ℕ) → Stays may_fail (sftp_write_sliding_data k)
  unfolding sftp_write_sliding_data
  sftp_write_sliding_data-Leads k = sliding_loop-Leads k []

  pub drain-Leads :
      (r : Prog (Unit {0}) Input) (w : List ℕ → Prog (Unit {0}) ℤ)
      → Stays may_fail r
      → ((bs : List ℕ) → Stays may_fail (w bs))
      → (k : ℕ) → Stays may_fail (drain r w k)
  unfolding drain
  drain-Leads r w h h' zero = spin-Leads refl
  drain-Leads r w h h' (suc k) = bind-Leads h (λ i.
      either (is_pos (result i)) (h' (contents i) ⨾ drain-Leads r w h h' k) (pure-Leads (result i)))

  read_retry-Leads : (n k : ℕ) → Stays may_fail (read_retry Stream.remote_file n k)
  unfolding read_retry
  read_retry-Leads n zero = spin-Leads refl
  read_retry-Leads n (suc k) =
      bind-Leads (read-Leads Stream.remote_file n (λ z. refl)) (λ i.
        either (is_eagain (result i)) (waitsocket-Leads ⨾ read_retry-Leads n k) (pure-Leads i))

  pub sftp_data-Leads : (k : ℕ) → Stays may_fail (sftp_data k)
  unfolding sftp_data
  sftp_data-Leads k =
      drain-Leads (read Stream.remote_file 1024) (write Stream.stdout)
        (read-Leads Stream.remote_file 1024 (λ z. refl))
        (λ bs. write-Leads Stream.stdout bs (λ z. refl)) k

  pub sftp_nonblock_data-Leads : (k : ℕ) → Stays may_fail (sftp_nonblock_data k)
  unfolding sftp_nonblock_data
  sftp_nonblock_data-Leads k =
      drain-Leads _ _ (read_retry-Leads (1024 * 24) k)
        (λ bs. write-Leads Stream.stdout bs (λ z. refl)) k

  pub exec_loop-Leads : (k : ℕ) → Stays may_fail (exec_loop k)
  unfolding exec_loop
  exec_loop-Leads zero = spin-Leads refl
  exec_loop-Leads (suc k) =
      bind-Leads
        (drain-Leads _ _ (read-Leads Stream.channel 16384 (λ z. refl))
          (λ bs. write-Leads Stream.stderr bs (λ z. refl)) k)
        (λ rc. either (is_eagain rc) (waitsocket-Leads ⨾ exec_loop-Leads k) (pure-Leads rc))

  pub scp_loop-Leads : (size k got : ℕ) → Stays may_fail (scp_loop size k got)
  unfolding scp_loop
  scp_loop-Leads size zero got = spin-Leads refl
  scp_loop-Leads size (suc k) got =
      either (ltb got size)
        (bind-Leads (read-Leads Stream.channel (amount 1024 size got) (λ z. refl)) (λ i.
          either (is_neg (result i)) (pure-Leads got) (
            either (is_pos (result i)) (write-Leads Stream.stdout (contents i) (λ z. refl))
              (pure-Leads {q = λ z. Phase.trusted} (pos 0))
            ⨾ scp_loop-Leads size k (got + length (contents i)))))
        (pure-Leads got)

  scp_block-Leads : (size k got : ℕ) → Stays may_fail (scp_block size k got)
  unfolding scp_block
  scp_block-Leads size zero got = spin-Leads refl
  scp_block-Leads size (suc k) got =
      bind-Leads (read-Leads Stream.channel (amount (1024 * 24) size got) (λ z. refl)) (λ i.
        either (is_pos (result i))
          (write-Leads Stream.stdout (contents i) (λ z. refl)
            ⨾ scp_block-Leads size k (got + length (contents i)))
          (pure-Leads (result i, got)))

  pub scp_nonblock_loop-Leads : (size k got : ℕ) → Stays may_fail (scp_nonblock_loop size k got)
  unfolding scp_nonblock_loop
  scp_nonblock_loop-Leads size zero got = spin-Leads refl
  scp_nonblock_loop-Leads size (suc k) got =
      either (ltb got size)
        (bind-Leads (scp_block-Leads size k got) (λ (rc, got').
          either (is_eagain rc && ltb got' size)
            (waitsocket-Leads ⨾ scp_nonblock_loop-Leads size k got') (pure-Leads got')))
        (pure-Leads got)
