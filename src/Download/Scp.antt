-- ===== src/Download/Scp.antt =====
-- The two scp downloads count what they have got against the size that the server announced.
use cloudssh.Base.{
  ◌⊎◌, ltb_full, lt→ltb, ℕ, zero, suc, ◌+◌, ◌*◌, ◌-◌, ◌≤◌, ◌<◌, ◌≡◌, refl, sym, ◌∙◌, ap, subst, inl,
  inr, true, false, ◌&&◌, List, [], ◌∷◌, ◌++◌, append-nil, arith, Bool-cases, length, length-append,
  ltb,
}
use cloudssh.Base.Int.{ℤ, pos, negsuc, is_neg, is_pos, is_eagain}
use cloudssh.Api.{
  Stream, bytes, Env, Trace, called, took, wrote, spin, contents, result, received, offered,
  IsHonest, Meets, returns, spins, Meets-bind, waitsocket,
}
use cloudssh.Upload.Chunk.{within}
use cloudssh.Download.{amount, scp_loop, scp_block, scp_nonblock_loop}
use cloudssh.Download.Copy.{IsCopied, contents_of_error}

abbrev Copied : Trace → Type 0
Copied = IsCopied Stream.channel Stream.stdout

-- `got` bytes have come, no more than the size, and all of them were written.
abbrev pub HasGot : ℕ → ℕ → Trace → Type 0
HasGot size got t = Copied t × (length (received Stream.channel t) ≡ got) × (got ≤ size)

-- The last call was a read that failed.
abbrev pub EndsInError : Trace → Type 0
EndsInError [] = ⊥
EndsInError (called c z ∷ t) = ⊥
EndsInError (wrote s bs z ∷ t) = ⊥
EndsInError (took s n i ∷ t) = is_neg (result i) ≡ true

amount-le : (buffer size got : ℕ) → amount buffer size got ≤ size - got
amount-le buffer size got = ground arith

module _ {env : Env} (honest : IsHonest env Stream.channel) (size buffer : ℕ) where
  -- One block that is written.
  HasGot-block :
      (got : ℕ) (t : Trace) (z : ℤ)
      → HasGot size got t
      → let n : ℕ = amount buffer size got in
        let i = env.input t Stream.channel n in
        HasGot size
          (got + length (contents i))
          (wrote Stream.stdout (contents i) z ∷ took Stream.channel n i ∷ t)
  unfolding received offered
  HasGot-block got t z (c, l, fits) =
      let n : ℕ = amount buffer size got in
      let i = env.input t Stream.channel n in
      (
        ap (λ l. l ++ contents i) c,
        omega (arith, l, length-append (received Stream.channel t) (contents i)),
        omega (arith, fits, amount-le buffer size got, honest.gives t n),
      )

  -- A read that gives nothing.
  HasGot-nothing :
      (got : ℕ) (t : Trace)
      → HasGot size got t
      → let n : ℕ = amount buffer size got in
        let i = env.input t Stream.channel n in
        is_pos (result i) ≡ false → HasGot size got (took Stream.channel n i ∷ t)
  unfolding received offered
  HasGot-nothing got t (c, l, fits) none_more =
      let i = env.input t Stream.channel (amount buffer size got) in
      let same =
        ap (λ l. received Stream.channel t ++ l) (contents_of_error i none_more) ∙ append-nil _ in
      (c ∙ sym same, ap (λ (l : List ℕ). length l) same ∙ l, fits)

neg_not_pos : (z : ℤ) → is_neg z ≡ true → is_pos z ≡ false
neg_not_pos (pos n) e = ground arith
neg_not_pos (negsuc n) e = refl

module _ {J : Type 0} {env : Env} (honest : IsHonest env Stream.channel) (size : ℕ) where
  -- scp.c: at every point the standard output was given what came over the channel. The loop ends
  -- with `got` bytes, never more than the announced size, and short of it only after an error.
  pub scp_loop-HasGot :
      (k got : ℕ) (t : Trace)
      → HasGot size got t
      → Meets {J = J}
          (within Copied)
          (λ got' u. HasGot size got' u × ((got' ≡ size) ⊎ EndsInError u))
          (scp_loop size k got env t)
  unfolding scp_loop
  scp_loop-HasGot zero got t h = spins h.0
  scp_loop-HasGot (suc k) got t h =
      let i = env.input t Stream.channel (amount 1024 size got) in
      elim (Bool-cases (ltb got size)) [
        | inr all ↦ rw all (returns (h, inl (ltb_full got size h.2 all)))
        | inl more ↦ rw more (elim (Bool-cases (is_neg (result i))) [
          | inl bad ↦
              rw bad
                (returns (HasGot-nothing honest size 1024 got t h (neg_not_pos _ bad), inr bad))
          | inr good ↦ rw good (elim (Bool-cases (is_pos (result i))) [
            | inl some ↦ rw some (scp_loop-HasGot k _ _ (HasGot-block honest size 1024 got t _ h))
            | inr none_now ↦ rw none_now (
                scp_loop-HasGot k _ _ (
                  subst (λ g. HasGot size g (took Stream.channel (amount 1024 size got) i ∷ t))
                    (omega (arith, ap (λ (l : List ℕ). length l) (contents_of_error i none_now)))
                    (HasGot-nothing honest size 1024 got t h none_now)))
          ])
        ])
      ]

  scp_block-HasGot :
      (k got : ℕ) (t : Trace)
      → HasGot size got t
      → Meets {J = J}
          (within Copied)
          (λ (rc, got') u. HasGot size got' u)
          (scp_block size k got env t)
  unfolding scp_block
  scp_block-HasGot zero got t h = spins h.0
  scp_block-HasGot (suc k) got t h =
      let i = env.input t Stream.channel (amount (1024 * 24) size got) in
      elim (Bool-cases (is_pos (result i))) [
        | inl some ↦
            rw some (scp_block-HasGot k _ _ (HasGot-block honest size (1024 * 24) got t _ h))
        | inr stop ↦ rw stop (returns (HasGot-nothing honest size (1024 * 24) got t h stop))
      ]

  -- scp_nonblock.c: the same count, over all the waits for the socket.
  pub scp_nonblock_loop-HasGot :
      (k got : ℕ) (t : Trace)
      → HasGot size got t
      → Meets {J = J} (within Copied) (HasGot size) (scp_nonblock_loop size k got env t)
  unfolding scp_nonblock_loop waitsocket received offered
  scp_nonblock_loop-HasGot zero got t h = spins h.0
  scp_nonblock_loop-HasGot (suc k) got t h = elim (Bool-cases (ltb got size)) [
    | inr all ↦ rw all (returns h)
    | inl more ↦ rw more (
        Meets-bind _ env (scp_block-HasGot k got t h) λ (rc, got') u h'.
          elim (Bool-cases (is_eagain rc && ltb got' size)) [
            | inl wait ↦ rw wait (scp_nonblock_loop-HasGot k got' _ h')
            | inr done ↦ rw done (returns h')
          ])
  ]

-- scp.c against a server that stops sending before the announced size: every further read returns
-- 0, which the loop takes for progress, and it never ends.
pub scp_loop-spins :
    {J : Type 0} (env : Env) (size k got : ℕ) (t : Trace)
    → got < size
    → ((u : Trace) (n : ℕ) → env.input u Stream.channel n ≡ bytes [])
    → (u : Trace) × (scp_loop {J = J} size k got env t ≡ spin u)
unfolding scp_loop
scp_loop-spins env size zero got t more ended = (t, refl)
scp_loop-spins env size (suc k) got t more ended =
    rw (lt→ltb got size more, ended t (amount 1024 size got))
      (scp_loop-spins env size k (got + 0) _ (omega arith) ended)
