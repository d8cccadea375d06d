-- ===== src/Upload/Loop.antt =====
-- The whole file: whatever the server answers, what it has accepted is a first part of what was
-- read from the file, and all of it where the last write did not fail.
use cloudssh.Base.{
  ◌⊎◌, length-take, drop-length-append, append_assoc, take-append-drop, ℕ, zero, suc, ◌<◌, ◌≡◌,
  refl, sym, ◌∙◌, ap, inl, inr, Bool, true, false, List, [], ◌∷◌, ◌++◌, append-nil, arith,
  Bool-cases, length, is_empty, take, drop, is_empty→nil, length-drop,
}
use cloudssh.Base.Int.{ℤ, is_neg, is_pos, pos_not_neg}
use cloudssh.Api.{
  Stream, Prog, Env, Trace, took, bytes, contents, sent, received, received-took, IsHonest,
  ReadsFile, TakesSome, Meets, returns, spins, Meets-bind, write,
}
use cloudssh.Upload.{
  send_file, sftp_write_data, sftp_append_data, scp_write_data, sftp_write_nonblock_data,
  scp_write_nonblock_data,
}
use cloudssh.Upload.Chunk.{
  InFlight, IsSentPart, within, IsWriter, write_chunk-Meets, write-IsWriter, write_retry-IsWriter,
  write_chunk-sends,
}

-- The outer loop goes on only where the buffer was sent.
abbrev GoesOnWhenSent : (ℤ → List ℕ → Bool) → Type 0
GoesOnWhenSent go_on =
    (rc : ℤ) (rest : List ℕ) → (is_neg rc ≡ false → rest ≡ []) → go_on rc rest ≡ true → rest ≡ []

-- What the loop ends with.
abbrev pub Uploaded : Stream → ℤ → Trace → Type 0
Uploaded s rc t = IsSentPart s t × ((is_neg rc ≡ true) ⊎ (sent s t ≡ received Stream.local_file t))

settled :
    (s : Stream) (t : Trace) (rest : List ℕ)
    → InFlight s t rest
    → rest ≡ []
    → sent s t ≡ received Stream.local_file t
settled s t rest fl e = sym (append-nil (sent s t)) ∙ ap (λ l. sent s t ++ l) (sym e) ∙ fl

sent_or_failed : {P : Type 0} (rc : ℤ) → (is_neg rc ≡ false → P) → (is_neg rc ≡ true) ⊎ P
sent_or_failed rc h = elim (Bool-cases (is_neg rc)) [ inl bad ↦ inl bad | inr good ↦ inr (h good) ]

module _ {J : Type 0} {env : Env} {s : Stream} {w : List ℕ → Prog J ℤ} (wr : IsWriter env s w)
    (go_on : ℤ → List ℕ → Bool) (sent_first : GoesOnWhenSent go_on) (size : ℕ) where
  send_file-Uploaded :
      (k : ℕ) (rc : ℤ) (t : Trace)
      → sent s t ≡ received Stream.local_file t
      → Meets (within (IsSentPart s)) (Uploaded s) (send_file w go_on size k rc env t)
  unfolding send_file sent
  send_file-Uploaded zero rc t e = spins ([], append-nil (sent s t) ∙ e)
  send_file-Uploaded (suc k) rc t e =
      let i = env.input t Stream.local_file size in
      let t' = took Stream.local_file size i ∷ t in
      let flight : InFlight s t' (contents i) = rw (received-took Stream.local_file size i t, e) in
      elim (Bool-cases (is_empty (contents i))) [
        | inl eof ↦ rw eof (
            returns
              ((contents i, flight), inr (settled s t' (contents i) flight (is_empty→nil _ eof))))
        | inr more ↦ rw more (
            Meets-bind _ env (write_chunk-Meets wr k t' (contents i) flight)
              λ (rc', rest) u (fl, ok). elim (Bool-cases (go_on rc' rest)) [
                | inl again ↦ rw again (
                    send_file-Uploaded k rc' u (settled s u rest fl (sent_first rc' rest ok again)))
                | inr stop ↦ rw stop (
                    returns
                      ((rest, fl), sent_or_failed rc' (λ good. settled s u rest fl (ok good))))
              ])
      ]

-- What `fread` gives next, where all that was read was sent and `left` is still in the file.
module _ {env : Env} (s : Stream) {content : List ℕ}
    (file : ReadsFile env Stream.local_file content) where
  pub next_block :
      (n : ℕ) (t : Trace) (left : List ℕ)
      → received Stream.local_file t ≡ sent s t
      → sent s t ++ left ≡ content
      → env.input t Stream.local_file n ≡ bytes (take n left)
  next_block n t left e h =
      file.next t n ∙ rw (e, ← h) (ap (λ l. bytes (take n l)) (drop-length-append (sent s t) left))

module _ {J : Type 0} {env : Env} {s : Stream} {content : List ℕ} (honest : IsHonest env s)
    (some : TakesSome env s) (file : ReadsFile env Stream.local_file content)
    (go_on : ℤ → List ℕ → Bool)
    (goes : (rc : ℤ) (rest : List ℕ) → is_pos rc ≡ true → rest ≡ [] → go_on rc rest ≡ true)
    (m : ℕ) where
  send_file-sends :
      (k : ℕ) (rc : ℤ) (t : Trace) (left : List ℕ)
      → received Stream.local_file t ≡ sent s t
      → sent s t ++ left ≡ content
      → length left < k
      → Meets {J = J}
          (within (λ _. ⊥))
          (λ _ t'. sent s t' ≡ content)
          (send_file (write s) go_on (suc m) k rc env t)
  unfolding send_file sent
  send_file-sends zero rc t left e h room = absurd (omega arith)
  send_file-sends (suc k) rc t [] e h room =
      rw (next_block s file (suc m) t [] e h) (returns (sym (append-nil (sent s t)) ∙ h))
  send_file-sends (suc k) rc t (y ∷ ys) e h room =
      let t' = took Stream.local_file (suc m) (bytes (y ∷ take m ys)) ∷ t in
      rw (next_block s file (suc m) t (y ∷ ys) e h) (
        Meets-bind _ env
          (write_chunk-sends honest some k t' y (take m ys) (omega (arith, room, length-take m ys)))
          λ (rc', rest) u (out, got, p, none_left). rw (goes rc' rest p none_left) (
            send_file-sends k rc' u (drop m ys)
              (got
                ∙ received-took Stream.local_file (suc m) (bytes (y ∷ take m ys)) t
                ∙ rw e (sym out))
              (rw out (
                append_assoc (sent s t) (y ∷ take m ys) (drop m ys)
                ∙ ap (λ l. sent s t ++ (y ∷ l)) (take-append-drop m ys)
                ∙ h))
              (omega (arith, room, length-drop m ys))))

module _ {J : Type 0} {env : Env} where
  -- sftp_write.c, any server that keeps to the manual: at every point of the loop, and where it
  -- ends, what the server accepted is a first part of what was read from the local file; where the
  -- last call did not fail it is all of it. Nothing undefined happens.
  pub sftp_write_data-Uploaded :
      (k : ℕ) (rc : ℤ) (t : Trace)
      → IsHonest env Stream.remote_file
      → sent Stream.remote_file t ≡ received Stream.local_file t
      → Meets {J = J}
          (within (IsSentPart Stream.remote_file))
          (Uploaded Stream.remote_file)
          (sftp_write_data k rc env t)
  unfolding sftp_write_data
  sftp_write_data-Uploaded k rc t honest e =
      send_file-Uploaded (write-IsWriter honest) _ (λ z rest ok p. ok (pos_not_neg z p)) _ k rc t e

  -- sftp_write_nonblock.c: the same, where a write that would block is made again.
  pub sftp_write_nonblock_data-Uploaded :
      (k : ℕ) (rc : ℤ) (t : Trace)
      → IsHonest env Stream.remote_file
      → sent Stream.remote_file t ≡ received Stream.local_file t
      → Meets {J = J}
          (within (IsSentPart Stream.remote_file))
          (Uploaded Stream.remote_file)
          (sftp_write_nonblock_data k rc env t)
  unfolding sftp_write_nonblock_data
  sftp_write_nonblock_data-Uploaded k rc t honest e =
      send_file-Uploaded (write_retry-IsWriter k honest) _ (λ z rest ok p. ok (pos_not_neg z p)) _ k
        rc t e

  -- scp_write_nonblock.c: the same over a channel, where the loop stops at a buffer that was not
  -- sent whole.
  pub scp_write_nonblock_data-Uploaded :
      (k : ℕ) (rc : ℤ) (t : Trace)
      → IsHonest env Stream.channel
      → sent Stream.channel t ≡ received Stream.local_file t
      → Meets {J = J}
          (within (IsSentPart Stream.channel))
          (Uploaded Stream.channel)
          (scp_write_nonblock_data k rc env t)
  unfolding scp_write_nonblock_data
  scp_write_nonblock_data-Uploaded k rc t honest e =
      send_file-Uploaded (write_retry-IsWriter k honest) _ (λ z rest ok p. is_empty→nil rest p) _ k
        rc t e

  -- scp_write.c with a server that always takes something: it returns, within one round more than
  -- the file has bytes, and the server has accepted exactly the file.
  pub scp_write_data-sends :
      (k : ℕ) (rc : ℤ) (t : Trace) (content : List ℕ)
      → IsHonest env Stream.channel
      → TakesSome env Stream.channel
      → ReadsFile env Stream.local_file content
      → received Stream.local_file t ≡ []
      → sent Stream.channel t ≡ []
      → length content < k
      → Meets {J = J}
          (within (λ _. ⊥))
          (λ _ t'. sent Stream.channel t' ≡ content)
          (scp_write_data k rc env t)
  unfolding scp_write_data
  scp_write_data-sends k rc t content honest some file r e room =
      send_file-sends honest some file _ (λ z rest p _. refl) _ k rc t content (r ∙ sym e) (rw e)
        room

  -- sftp_append.c with a server that always takes something: it returns, within one round more
  -- than the file has bytes, and the server has accepted exactly the file.
  pub sftp_append_data-sends :
      (k : ℕ) (rc : ℤ) (t : Trace) (content : List ℕ)
      → IsHonest env Stream.remote_file
      → TakesSome env Stream.remote_file
      → ReadsFile env Stream.local_file content
      → received Stream.local_file t ≡ []
      → sent Stream.remote_file t ≡ []
      → length content < k
      → Meets {J = J}
          (within (λ _. ⊥))
          (λ _ t'. sent Stream.remote_file t' ≡ content)
          (sftp_append_data k rc env t)
  unfolding sftp_append_data
  sftp_append_data-sends k rc t content honest some file r e room =
      send_file-sends honest some file _ (λ z rest p _. p) _ k rc t content (r ∙ sym e) (rw e) room

  pub sftp_write_data-sends :
      (k : ℕ) (rc : ℤ) (t : Trace) (content : List ℕ)
      → IsHonest env Stream.remote_file
      → TakesSome env Stream.remote_file
      → ReadsFile env Stream.local_file content
      → received Stream.local_file t ≡ []
      → sent Stream.remote_file t ≡ []
      → length content < k
      → Meets {J = J}
          (within (λ _. ⊥))
          (λ _ t'. sent Stream.remote_file t' ≡ content)
          (sftp_write_data k rc env t)
  unfolding sftp_write_data sftp_append_data
  sftp_write_data-sends = sftp_append_data-sends
