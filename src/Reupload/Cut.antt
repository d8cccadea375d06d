-- ===== src/Reupload/Cut.antt =====
-- What a block of the temporary file comes to.
use cloudssh.Base.{
  ℕ, zero, suc, ◌≡◌, ◌∙◌, refl, true, List, [], ◌∷◌, ◌++◌, append-nil, take, Bool-cases, inl, inr,
}
use cloudssh.Base.Int.{ℤ, pos_part, is_neg}
use cloudssh.Api.{Stream, Env, Trace, wrote, sent, sent-wrote, Meets, returns, spins}
use cloudssh.Upload.Chunk.{within}
use cloudssh.Reupload.{rw_block}

take-nil : (n : ℕ) → take {A = ℕ} n [] ≡ []
take-nil zero = refl
take-nil (suc n) = refl

module _ {J : Type 0} (env : Env) where
  -- The rounds after the first send nothing.
  rest_sends_nothing :
      (k : ℕ) (t : Trace) (so_far : List ℕ)
      → sent Stream.remote_file t ≡ so_far
      → Meets {J = J}
          (within (λ u. sent Stream.remote_file u ≡ so_far))
          (λ rc u. (is_neg rc ≡ true) × (sent Stream.remote_file u ≡ so_far))
          (rw_block k [] env t)
  unfolding rw_block
  rest_sends_nothing zero t so_far h = spins h
  rest_sends_nothing (suc k) t so_far h =
      let rc : ℤ = env.accept t Stream.remote_file [] in
      let u : Trace = wrote Stream.remote_file [] rc ∷ t in
      let same : sent Stream.remote_file u ≡ so_far =
        sent-wrote Stream.remote_file [] rc t
        ∙ rw (take-nil (pos_part rc)) (append-nil (sent Stream.remote_file t))
        ∙ h in
      elim (Bool-cases (is_neg rc)) [
        | inl e ↦ rw e (returns (e, same))
        | inr e ↦ rw e (rest_sends_nothing k u so_far same)
      ]

  -- Whatever the server answers, of a block of the temporary file it is sent what the first write
  -- takes, and nothing more: what a partial write leaves is lost. The loop over the block returns
  -- with an error only, and is still running where the server takes the empty writes after it.
  pub rw_block-cuts :
      (k : ℕ) (t : Trace) (buf : List ℕ)
      → let first : ℤ = env.accept t Stream.remote_file buf in
        let cut : List ℕ = sent Stream.remote_file t ++ take (pos_part first) buf in
        Meets {J = J}
          (within (λ u. sent Stream.remote_file u ≡ cut))
          (λ rc u. (is_neg rc ≡ true) × (sent Stream.remote_file u ≡ cut))
          (rw_block (suc k) buf env t)
  unfolding rw_block
  rw_block-cuts k t buf =
      let rc : ℤ = env.accept t Stream.remote_file buf in
      let u : Trace = wrote Stream.remote_file buf rc ∷ t in
      let once = sent-wrote Stream.remote_file buf rc t in
      elim (Bool-cases (is_neg rc)) [
        | inl e ↦ rw e (returns (e, once))
        | inr e ↦ rw e (rest_sends_nothing k u _ once)
      ]
