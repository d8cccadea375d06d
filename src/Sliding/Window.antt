-- ===== src/Sliding/Window.antt =====
-- The buffer is a window on the file: what was sent, then the buffer, is what was read; and it
-- never outgrows its array.
use cloudssh.Base.{
  subst, and_left, ℕ, zero, suc, ◌-◌, ◌≤◌, ◌≡◌, sym, ◌∙◌, ap, inl, inr, ◌&&◌, List, [], ◌∷◌, ◌++◌,
  append_assoc, append-nil, arith, Bool-cases, length, length-append, length-drop, is_empty, drop,
  is_empty→nil,
}
use cloudssh.Base.Int.{is_neg, is_pos, pos_part}
use cloudssh.Api.{
  Stream, Env, Trace, took, contents, sent, received, received-took, IsHonest, Meets, returns,
  spins, Meets-bind, advance_within,
}
use cloudssh.Upload.Chunk.{
  InFlight, IsSentPart, within, InFlight-drop, InFlight-neg, write_retry-Meets,
}
use cloudssh.Sliding.{mem_size, sliding_loop, sftp_write_sliding_data}

abbrev remote : Stream
remote = Stream.remote_file

-- The buffer holds what was read and not sent, and fits its array.
abbrev pub IsWindow : List ℕ → Trace → Type 0
IsWindow mem t = InFlight remote t mem × (length mem ≤ mem_size)

module _ {env : Env} (honest : IsHonest env remote)
    (honest_file : IsHonest env Stream.local_file) where
  filled-IsWindow :
      (t : Trace) (mem : List ℕ)
      → IsWindow mem t
      → let n : ℕ = mem_size - length mem in
        let i = env.input t Stream.local_file n in
        IsWindow (mem ++ contents i) (took Stream.local_file n i ∷ t)
  unfolding sent
  filled-IsWindow t mem (fl, fits) =
      let n : ℕ = mem_size - length mem in
      let i = env.input t Stream.local_file n in
      (
        rw (received-took Stream.local_file n i t, ← fl)
            (sym (append_assoc (sent remote t) mem (contents i))),
        omega (arith, fits, length-append mem (contents i), honest_file.gives t n),
      )

  sliding_loop-IsWindow :
      {J : Type 0} (k : ℕ) (t : Trace) (mem : List ℕ)
      → IsWindow mem t
      → Meets {J = J} (within (IsSentPart remote)) IsWindow (sliding_loop k mem env t)
  unfolding sliding_loop
  sliding_loop-IsWindow zero t mem w = spins (mem, w.0)
  sliding_loop-IsWindow (suc k) t mem w =
      let n : ℕ = mem_size - length mem in
      let i = env.input t Stream.local_file n in
      let t' = took Stream.local_file n i ∷ t in
      let filled = mem ++ contents i in
      let w' = filled-IsWindow t mem w in
      elim (Bool-cases (is_empty (contents i) && is_empty mem)) [
        | inl eof ↦ rw eof (
            returns (
              subst (λ m. IsWindow m t')
                (ap (λ l. mem ++ l) (is_empty→nil _ (and_left _ _ eof)) ∙ append-nil mem) w'))
        | inr more ↦ rw more (
            Meets-bind _ env (write_retry-Meets honest k t' filled (filled, w'.0)) λ rc u wr.
              elim (Bool-cases (is_neg rc)) [
                | inl neg ↦ rw neg (returns (InFlight-neg remote t' u filled rc neg wr w'.0, w'.1))
                | inr ok ↦
                    let kept : IsWindow (drop (pos_part rc) filled) u = (
                      InFlight-drop remote t' u filled rc wr w'.0,
                      omega (arith, w'.1, length-drop (pos_part rc) filled),
                    ) in
                    rw (ok, advance_within rc filled env u wr.2)
                      (elim (Bool-cases (is_pos rc)) [
                        | inl again ↦ rw again (sliding_loop-IsWindow k u _ kept)
                        | inr stop ↦ rw stop (returns kept)
                      ])
              ])
      ]

-- Whatever the server answers, at every point of the loop what it accepted is a first part of what
-- was read from the local file; where the loop ends, what is read and not accepted is what the
-- buffer holds, and the buffer is within its array.
pub sftp_write_sliding_data-IsWindow :
    {J : Type 0} {env : Env} (k : ℕ) (t : Trace)
    → IsHonest env Stream.remote_file
    → IsHonest env Stream.local_file
    → sent Stream.remote_file t ≡ received Stream.local_file t
    → Meets {J = J}
        (within (IsSentPart Stream.remote_file))
        IsWindow
        (sftp_write_sliding_data k env t)
unfolding sftp_write_sliding_data
sftp_write_sliding_data-IsWindow k t honest honest_file e =
    sliding_loop-IsWindow honest honest_file k t [] (append-nil _ ∙ e, omega arith)
