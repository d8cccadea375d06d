-- ===== src/Sliding/Total.antt =====
-- With a server that always takes something the whole file arrives.
use cloudssh.Base.{
  nil_of_length, append_nonempty, subst, drop-length-append, ℕ, zero, suc, ◌+◌, ◌-◌, ◌≤◌, ◌<◌, ◌≡◌,
  refl, sym, ◌∙◌, ap, inl, inr, true, ◌&&◌, List, [], ◌∷◌, ◌++◌, append_assoc, append-nil, arith,
  Bool-cases, length, length-append, length-drop, length-take, is_empty, take, drop, is_empty→nil,
  and_left, and_right, take-append-drop,
}
use cloudssh.Base.Int.{ℤ, is_pos, pos_part, pos_not_neg, pos_part_pos, pos_not_eagain}
use cloudssh.Api.{
  Stream, Env, Trace, ret, took, wrote, bytes, sent, received, sent-wrote, received-took, IsHonest,
  ReadsFile, TakesSome, Meets, returns, advance_within,
}
use cloudssh.Upload.{write_retry}
use cloudssh.Upload.Chunk.{within, sent_rest}
use cloudssh.Sliding.{mem_size, sliding_loop, sftp_write_sliding_data}

abbrev remote : Stream
remote = Stream.remote_file

write_retry-takes :
    {J : Type 0} {env : Env} (s : Stream) (k : ℕ) (t : Trace) (b : ℕ) (bs : List ℕ)
    → TakesSome env s
    → write_retry {J = J} s (suc k) (b ∷ bs) env t
      ≡ ret (env.accept t s (b ∷ bs)) (wrote s (b ∷ bs) (env.accept t s (b ∷ bs)) ∷ t)
unfolding write_retry
write_retry-takes s k t b bs some = rw (pos_not_eagain _ (some.some_at t b bs))

-- The file is what was sent, then the buffer, then what is still to be read.
record IsAt (content : List ℕ) (t : Trace) (mem left : List ℕ) : Type 0 where
  buffered : sent remote t ++ mem ≡ received Stream.local_file t
  unread : received Stream.local_file t ++ left ≡ content
  fits : length mem ≤ mem_size

read_more :
    {content : List ℕ} (t : Trace) (mem left : List ℕ)
    → IsAt content t mem left
    → let n : ℕ = mem_size - length mem in
      IsAt content
        (took Stream.local_file n (bytes (take n left)) ∷ t)
        (mem ++ take n left)
        (drop n left)
unfolding sent
read_more t mem left at =
    let n : ℕ = mem_size - length mem in
    let got = received-took Stream.local_file n (bytes (take n left)) t in
    record {
      buffered =
          sym (append_assoc (sent remote t) mem (take n left))
          ∙ ap (λ l. l ++ take n left) at.buffered
          ∙ sym got;
      unread = rw got (
          append_assoc (received Stream.local_file t) (take n left) (drop n left)
          ∙ ap (λ l. received Stream.local_file t ++ l) (take-append-drop n left)
          ∙ at.unread);
      fits = omega (arith, at.fits, length-append mem (take n left), length-take n left);
    }

send_front :
    {content : List ℕ} (t : Trace) (b : ℕ) (bs left : List ℕ) (z : ℤ)
    → IsAt content t (b ∷ bs) left
    → IsAt content (wrote remote (b ∷ bs) z ∷ t) (drop (pos_part z) (b ∷ bs)) left
unfolding received
send_front t b bs left z at = record {
  buffered =
      sent_rest (sent remote t) (pos_part z) (b ∷ bs) (sent-wrote remote (b ∷ bs) z t) refl
      ∙ at.buffered;
  unread = at.unread;
  fits = omega (arith, at.fits, length-drop (pos_part z) (b ∷ bs));
}

module _ {env : Env} {content : List ℕ} (honest : IsHonest env remote) (some : TakesSome env remote)
    (file : ReadsFile env Stream.local_file content) where
  next_bytes :
      (t : Trace) (mem left : List ℕ) (n : ℕ)
      → IsAt content t mem left
      → env.input t Stream.local_file n ≡ bytes (take n left)
  next_bytes t mem left n at =
      file.next t n
      ∙ rw (← at.unread)
          (ap (λ l. bytes (take n l)) (drop-length-append (received Stream.local_file t) left))

  all_sent :
      (t : Trace) (mem left : List ℕ)
      → IsAt content t mem left
      → mem ≡ []
      → take (mem_size - length mem) left ≡ []
      → sent remote t ≡ content
  all_sent t mem left at empty none_left =
      let read_all : left ≡ [] = nil_of_length left (
        omega (
          arith,
          ap (λ (l : List ℕ). length l) empty,
          ap (λ (l : List ℕ). length l) none_left,
          length-take (mem_size - length mem) left,
        )) in
      sym (append-nil (sent remote t))
      ∙ ap (λ l. sent remote t ++ l) (sym empty)
      ∙ at.buffered
      ∙ sym (append-nil _)
      ∙ ap (λ l. received Stream.local_file t ++ l) (sym read_all)
      ∙ at.unread

  sliding_loop-sends :
      {J : Type 0} (k : ℕ) (t : Trace) (mem left : List ℕ)
      → IsAt content t mem left
      → length mem + length left + 1 < k
      → Meets {J = J}
          (within (λ _. ⊥))
          (λ mem' u. (mem' ≡ []) × (sent remote u ≡ content))
          (sliding_loop k mem env t)
  unfolding sliding_loop sent
  sliding_loop-sends zero t mem left at room = absurd (omega arith)
  sliding_loop-sends (suc zero) t mem left at room = absurd (omega arith)
  sliding_loop-sends (suc (suc j)) t mem left at room =
      let n : ℕ = mem_size - length mem in
      let t' = took Stream.local_file n (bytes (take n left)) ∷ t in
      rw (next_bytes t mem left n at) (elim (Bool-cases (is_empty (take n left) && is_empty mem)) [
        | inl eof ↦
            let empty : mem ≡ [] = is_empty→nil mem (and_right _ _ eof) in
            rw eof
              (returns (empty, all_sent t mem left at empty (is_empty→nil _ (and_left _ _ eof))))
        | inr more ↦
            let (b, bs, filled) = append_nonempty mem (take n left) more in
            let z = env.accept t' remote (b ∷ bs) in
            let u = wrote remote (b ∷ bs) z ∷ t' in
            let p : is_pos z ≡ true = some.some_at t' b bs in
            let at' : IsAt content t' (b ∷ bs) (drop n left) =
              subst (λ l. IsAt content t' l (drop n left)) filled (read_more t mem left at) in
            let count : length mem + length (take n left) ≡ suc (length bs) =
              omega
                (arith, length-append mem (take n left), ap (λ (l : List ℕ). length l) filled) in
            rw
              (
                more,
                filled,
                write_retry-takes remote j t' b bs some,
                pos_not_neg z p,
                advance_within z (b ∷ bs) env u (honest.accepts t' (b ∷ bs)),
                p,
              )
              (sliding_loop-sends (suc j) u (drop (pos_part z) (b ∷ bs)) (drop n left)
                (send_front t' b bs (drop n left) z at')
                (omega (
                  arith,
                  room,
                  count,
                  pos_part_pos z p,
                  length-drop (pos_part z) (b ∷ bs),
                  length-take n left,
                  length-drop n left,
                )))
      ])

-- With a server that always takes something, the loop returns within two rounds more than the file
-- has bytes, with an empty buffer, and the server has accepted exactly the file.
pub sftp_write_sliding_data-sends :
    {J : Type 0} {env : Env} (k : ℕ) (t : Trace) (content : List ℕ)
    → IsHonest env Stream.remote_file
    → TakesSome env Stream.remote_file
    → ReadsFile env Stream.local_file content
    → received Stream.local_file t ≡ []
    → sent Stream.remote_file t ≡ []
    → length content + 1 < k
    → Meets {J = J}
        (within (λ _. ⊥))
        (λ mem u. (mem ≡ []) × (sent Stream.remote_file u ≡ content))
        (sftp_write_sliding_data k env t)
unfolding sftp_write_sliding_data
sftp_write_sliding_data-sends k t content honest some file r e room =
    sliding_loop-sends honest some file k t [] content
      (record { buffered = rw (r, e); unread = rw r; fits = omega arith }) (omega arith)
