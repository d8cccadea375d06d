-- ===== src/Download/Copy.antt =====
-- What is read is what is written, in order: the loops of sftp.c, sftp_nonblock.c and the
-- download of sftp_RW_nonblock.c.
use cloudssh.Base.{
  ℕ, zero, suc, ◌*◌, ◌<◌, ◌≡◌, refl, sym, ◌∙◌, ap, inl, inr, false, List, [], ◌∷◌, ◌++◌,
  append_assoc, append-nil, arith, Bool-cases, length, length-drop, take, drop, take-append-drop,
}
use cloudssh.Base.Int.{ℤ, is_pos, is_eagain, eagain_not_pos}
use cloudssh.Api.{
  Stream, Input, bytes, failed, Prog, Run, Env, Trace, contents, result, select_both, Sock,
  ReadsFile, next_read, received, offered, offered-wrote, received-took, Meets, returns, spins,
  Meets-bind, Meets-mono, read, waitsocket, write,
}
use cloudssh.Upload.Chunk.{within}
use cloudssh.Download.{read_retry, drain, store, sftp_data, sftp_nonblock_data, rw_download}

-- What went to `dst` is what came from `src`.
abbrev pub IsCopied : Stream → Stream → Trace → Type 0
IsCopied src dst t = offered dst t ≡ received src t

-- The run of a download into `dst`.
abbrev pub IsDownload : {J : Type 0} → Stream → Run J ℤ → Type 0
IsDownload dst run =
    Meets (within (IsCopied Stream.remote_file dst))
      (λ rc u. (is_pos rc ≡ false) × IsCopied Stream.remote_file dst u) run

-- A reader takes one block, perhaps an empty one, from the stream.
pub record IsReader {J : Type 0} (env : Env) (src : Stream) (dst : Stream) (r : Prog J Input)
    : Type 0 where
  pub reads :
      (t : Trace)
      → IsCopied src dst t
      → Meets
          (within (IsCopied src dst))
          (λ i u. (offered dst u ≡ offered dst t) × (received src u ≡ received src t ++ contents i))
          (r env t)

-- An error carries no bytes.
pub contents_of_error : (i : Input) → is_pos (result i) ≡ false → contents i ≡ []
contents_of_error (bytes []) e = refl
contents_of_error (bytes (b ∷ bs)) e = absurd (ground arith)
contents_of_error (failed n) e = refl

module _ {J : Type 0} {env : Env} {src dst : Stream} where
  pub drain-IsCopied :
      {r : Prog J Input} (put : List ℕ → Prog J ℤ)
      → IsReader env src dst r
      → ((t : Trace) (bs : List ℕ)
          → Meets
              (within (IsCopied src dst))
              (λ z u. (offered dst u ≡ offered dst t ++ bs) × (received src u ≡ received src t))
              (put bs env t))
      → (k : ℕ) (t : Trace) → IsCopied src dst t
      → Meets
          (within (IsCopied src dst))
          (λ rc u. (is_pos rc ≡ false) × IsCopied src dst u)
          (drain r put k env t)
  unfolding drain
  drain-IsCopied put rd puts zero t c = spins c
  drain-IsCopied put rd puts (suc k) t c = Meets-bind _ env (rd.reads t c) λ i u (o, g).
      elim (Bool-cases (is_pos (result i))) [
        | inl more ↦ rw more (
            Meets-bind _ env (puts u (contents i)) λ z v (o', g').
              drain-IsCopied put rd puts k v
                (o' ∙ ap (λ l. l ++ contents i) (o ∙ c) ∙ sym (g' ∙ g)))
        | inr stop ↦ rw stop (
            returns (
              stop,
              o
                  ∙ c
                  ∙ sym
                      (g ∙ ap (λ l. received src t ++ l) (contents_of_error i stop) ∙ append-nil _),
            ))
      ]

module _ {J : Type 0} (env : Env) (src dst : Stream) where
  pub read-IsReader : (size : ℕ) → IsReader {J = J} env src dst (read src size)
  unfolding offered
  read-IsReader size = record { reads = λ t c. returns (refl, received-took src size _ t) }

  read_retry-reads :
      (size k : ℕ) (t : Trace)
      → IsCopied src dst t
      → Meets {J = J}
          (within (IsCopied src dst))
          (λ i u. (offered dst u ≡ offered dst t) × (received src u ≡ received src t ++ contents i))
          (read_retry src size k env t)
  unfolding read_retry waitsocket received offered
  read_retry-reads size zero t c = spins c
  read_retry-reads size (suc k) t c =
      let i = env.input t src size in
      elim (Bool-cases (is_eagain (result i))) [
        | inl again ↦
            let empty =
              received-took src size i t
              ∙ ap (λ l. received src t ++ l) (contents_of_error i (eagain_not_pos _ again))
              ∙ append-nil _ in
            rw again (
              Meets-mono (read_retry-reads size k _ (c ∙ sym empty))
                λ j u (o, g). (o, g ∙ ap (λ l. l ++ contents j) empty))
        | inr done ↦ rw done (returns (refl, received-took src size i t))
      ]

  pub read_retry-IsReader : (size k : ℕ) → IsReader {J = J} env src dst (read_retry src size k)
  read_retry-IsReader size k = record { reads = read_retry-reads size k }

module _ {J : Type 0} (env : Env) where
  write_stdout :
      (src : Stream) (t : Trace) (bs : List ℕ)
      → Meets {J = J}
          (within (IsCopied src Stream.stdout))
          (λ z u.
            (offered Stream.stdout u ≡ offered Stream.stdout t ++ bs)
            × (received src u ≡ received src t))
          (write Stream.stdout bs env t)
  unfolding received
  write_stdout src t bs = returns (offered-wrote Stream.stdout bs _ t, refl)

  -- sftp.c: at every point, what went to the standard output is what came from the remote file;
  -- the loop ends at the end of the file or at an error.
  sftp_data-IsCopied :
      (k : ℕ) (t : Trace)
      → IsCopied Stream.remote_file Stream.stdout t
      → IsDownload {J = J} Stream.stdout (sftp_data k env t)
  unfolding sftp_data
  sftp_data-IsCopied k t c =
      drain-IsCopied (write Stream.stdout) (read-IsReader env _ _ 1024)
        (write_stdout Stream.remote_file) k t c

  -- sftp_nonblock.c: the same, where a read that would block is made again.
  sftp_nonblock_data-IsCopied :
      (k : ℕ) (t : Trace)
      → IsCopied Stream.remote_file Stream.stdout t
      → IsDownload {J = J} Stream.stdout (sftp_nonblock_data k env t)
  unfolding sftp_nonblock_data
  sftp_nonblock_data-IsCopied k t c =
      drain-IsCopied (write Stream.stdout) (read_retry-IsReader env _ _ (1024 * 24) k)
        (write_stdout Stream.remote_file) k t c

  store-adds :
      (t : Trace) (bs : List ℕ)
      → Meets {J = J}
          (within (IsCopied Stream.remote_file Stream.temp_file))
          (λ z u.
            (offered Stream.temp_file u ≡ offered Stream.temp_file t ++ bs)
            × (received Stream.remote_file u ≡ received Stream.remote_file t))
          (store bs env t)
  unfolding store received offered
  store-adds t bs = returns (refl, refl)

  -- The download of sftp_RW_nonblock.c: at every point, the temporary file was given what came from
  -- the remote file, over all the waits for the socket.
  rw_download-IsCopied :
      (k : ℕ) (t : Trace)
      → IsCopied Stream.remote_file Stream.temp_file t
      → IsDownload {J = J} Stream.temp_file (rw_download k env t)
  unfolding rw_download received offered
  rw_download-IsCopied zero t c = spins c
  rw_download-IsCopied (suc k) t c =
      Meets-bind _ env
        (drain-IsCopied store (read-IsReader env Stream.remote_file Stream.temp_file 1000)
          store-adds k t c)
        λ rc u (stop, d).
          let ready = env.reply u (select_both Sock.ssh_sock) in
          elim (Bool-cases (is_eagain rc)) [
            | inl wait ↦ rw wait (elim (Bool-cases (is_pos ready)) [
              | inl up ↦ rw up (rw_download-IsCopied k _ d)
              | inr down ↦ rw down (returns (down, d))
            ])
            | inr done ↦ rw done (returns (stop, d))
          ]

-- What the downloads of sftp.c, sftp_nonblock.c and sftp_RW_nonblock.c put out, to the standard output
-- or to the temporary file, is at every point what came from the remote file, over all errors and
-- waits, and they go on only behind a read or a wait that gave nothing.
pub downloads-AreCopied :
    {J : Type 0} (env : Env) (k : ℕ) (t : Trace)
    → IsCopied Stream.remote_file Stream.stdout t
    → IsCopied Stream.remote_file Stream.temp_file t
    → IsDownload {J = J} Stream.stdout (sftp_data k env t)
      × IsDownload {J = J} Stream.stdout (sftp_nonblock_data k env t)
      × IsDownload {J = J} Stream.temp_file (rw_download k env t)
downloads-AreCopied env k t out temp = (
  sftp_data-IsCopied env k t out,
  sftp_nonblock_data-IsCopied env k t out,
  rw_download-IsCopied env k t temp,
)

-- sftp.c with a server that gives the file block by block: it returns within one round more than
-- the file has bytes, and the standard output was given exactly the file.
pub sftp_data-fetches :
    {J : Type 0} {env : Env} (k : ℕ) (t : Trace) (content left : List ℕ)
    → ReadsFile env Stream.remote_file content
    → IsCopied Stream.remote_file Stream.stdout t
    → received Stream.remote_file t ++ left ≡ content
    → length left < k
    → Meets {J = J} (within (λ _. ⊥)) (λ _ u. offered Stream.stdout u ≡ content) (sftp_data k env t)
unfolding sftp_data drain received offered
sftp_data-fetches zero t content left file c h room = absurd (omega arith)
sftp_data-fetches (suc k) t content [] file c h room =
    rw (next_read Stream.remote_file file 1024 t [] h) (returns (c ∙ sym (append-nil _) ∙ h))
sftp_data-fetches (suc k) t content (y ∷ ys) file c h room =
    rw (next_read Stream.remote_file file 1024 t (y ∷ ys) h) (
      sftp_data-fetches k _ content (drop 1023 ys) file (ap (λ l. l ++ (y ∷ take 1023 ys)) c)
        (append_assoc _ (y ∷ take 1023 ys) (drop 1023 ys)
          ∙ ap (λ l. received Stream.remote_file t ++ (y ∷ l)) (take-append-drop 1023 ys)
          ∙ h)
        (omega (arith, room, length-drop 1023 ys)))
