-- ===== src/Upload/Chunk.antt =====
-- One buffer: what a write loop sends is a first part of the buffer, and all of it unless a
-- write fails.
use cloudssh.Base.{
  List-cases, length-drop, ◌∷◌, ◌<◌, ℕ, zero, suc, ◌≤◌, ◌≡◌, refl, sym, ◌∙◌, ap, inl, inr, true,
  false, List, [], ◌++◌, append_assoc, append-nil, arith, Bool-cases, length, is_empty, take, drop,
  take-append-drop, is_empty→nil,
}
use cloudssh.Base.Int.{
  ℤ, is_neg, is_eagain, pos_part, neg_part_zero, eagain_neg, pos_not_neg, pos_part_pos, is_pos,
}
use cloudssh.Api.{
  Stream, TakesSome, wrote, Prog, Env, Trace, sent, received, sent-wrote, sent-failed, IsHonest,
  advance_within, Exits, Meets, returns, spins, Meets-bind, Meets-mono, write, waitsocket,
}
use cloudssh.Upload.{write_chunk, write_retry}

-- `buf` is read from the file and not yet sent.
abbrev pub InFlight : Stream → Trace → List ℕ → Type 0
InFlight s t buf = sent s t ++ buf ≡ received Stream.local_file t

-- What is sent of the file so far is a first part of what is read of it.
abbrev pub IsSentPart : Stream → Trace → Type 0
IsSentPart s t = (rest : List ℕ) × InFlight s t rest

-- The data loops neither jump nor leave.
abbrev pub within : {J : Type 0} → (Trace → Type 0) → Exits J
within I = record { jumping = λ j t. ⊥; leaving = λ z t. ⊥; running = I }

-- A write that has sent the first `rc` bytes, or none where `rc` is an error.
abbrev pub Written : Stream → Trace → List ℕ → ℤ → Trace → Type 0
Written s t buf rc t' =
    (sent s t' ≡ sent s t ++ take (pos_part rc) buf)
    × (received Stream.local_file t' ≡ received Stream.local_file t)
    × (pos_part rc ≤ length buf)

pub record IsWriter {J : Type 0} (env : Env) (s : Stream) (w : List ℕ → Prog J ℤ) : Type 0 where
  pub writes :
      (t : Trace) (buf : List ℕ)
      → IsSentPart s t
      → Meets (within (IsSentPart s)) (Written s t buf) (w buf env t)

module _ (s : Stream) where
  pub InFlight-drop :
      (t t' : Trace) (buf : List ℕ) (rc : ℤ)
      → Written s t buf rc t'
      → InFlight s t buf
      → InFlight s t' (drop (pos_part rc) buf)
  InFlight-drop t t' buf rc (e, r, _) h =
      rw (e, r)
        (append_assoc (sent s t) (take (pos_part rc) buf) (drop (pos_part rc) buf)
          ∙ ap (λ l. sent s t ++ l) (take-append-drop (pos_part rc) buf)
          ∙ h)

  pub InFlight-neg :
      (t t' : Trace) (buf : List ℕ) (rc : ℤ)
      → is_neg rc ≡ true
      → Written s t buf rc t'
      → InFlight s t buf
      → InFlight s t' buf
  InFlight-neg t t' buf rc neg wr h =
      let kept = InFlight-drop t t' buf rc wr h in rw (neg_part_zero rc neg) at kept

drop_nil-take : (n : ℕ) (xs : List ℕ) → drop n xs ≡ [] → take n xs ≡ xs
drop_nil-take n xs e =
    sym (append-nil (take n xs)) ∙ ap (λ l. take n xs ++ l) (sym e) ∙ take-append-drop n xs

-- What was left of a partial write is sent behind its first part.
pub sent_rest :
    {a rest : List ℕ} (t : List ℕ) (n : ℕ) (buf : List ℕ)
    → a ≡ t ++ take n buf
    → drop n buf ≡ rest
    → a ++ rest ≡ t ++ buf
sent_rest t n buf e d =
    rw (e, ← d)
      (append_assoc t (take n buf) (drop n buf) ∙ ap (λ l. t ++ l) (take-append-drop n buf))

module _ {J : Type 0} {env : Env} {s : Stream} where
  pub write_chunk-Meets :
      {w : List ℕ → Prog J ℤ}
      → IsWriter env s w
      → (k : ℕ) (t : Trace) (buf : List ℕ) → InFlight s t buf
      → Meets
          (within (IsSentPart s))
          (λ (rc, rest) t'. InFlight s t' rest × (is_neg rc ≡ false → rest ≡ []))
          (write_chunk w k buf env t)
  unfolding write_chunk
  write_chunk-Meets {w} wr zero t buf h = spins (buf, h)
  write_chunk-Meets {w} wr (suc k) t buf h =
      Meets-bind _ env (wr.writes t buf (buf, h)) λ rc t' sends. elim (Bool-cases (is_neg rc)) [
        | inl neg ↦ rw neg (returns (InFlight-neg s t t' buf rc neg sends h, λ ok. cc))
        | inr ok ↦
            let kept = InFlight-drop s t t' buf rc sends h in
            rw (ok, advance_within rc buf env t' sends.2)
              (elim (Bool-cases (is_empty (drop (pos_part rc) buf))) [
                | inl done ↦ rw done (returns (kept, λ _. is_empty→nil _ done))
                | inr more ↦ rw more (write_chunk-Meets wr k t' _ kept)
              ])
      ]

  -- A single call of the library, in blocking mode.
  pub write-IsWriter : IsHonest env s → IsWriter {J = J} env s (write s)
  unfolding received
  write-IsWriter honest = record {
    writes = λ t buf part. returns (sent-wrote s buf _ t, refl, honest.accepts t buf);
  }

  -- From a server that takes a part of whatever it is offered, the buffer is sent in at most as
  -- many calls as it has bytes.
  pub write_chunk-sends :
      IsHonest env s
      → TakesSome env s
      → (k : ℕ) (t : Trace) (b : ℕ) (bs : List ℕ) → length bs < k
      → Meets {J = J}
          (within (λ _. ⊥))
          (λ (rc, rest) t'.
            (sent s t' ≡ sent s t ++ (b ∷ bs))
            × (received Stream.local_file t' ≡ received Stream.local_file t)
            × (is_pos rc ≡ true)
            × (rest ≡ []))
          (write_chunk (write s) k (b ∷ bs) env t)
  unfolding write_chunk received
  write_chunk-sends honest some zero t b bs room = absurd (omega arith)
  write_chunk-sends honest some (suc k) t b bs room =
      let z = env.accept t s (b ∷ bs) in
      let t' = wrote s (b ∷ bs) z ∷ t in
      let taken = sent-wrote s (b ∷ bs) z t in
      rw
        (pos_not_neg z (some.some_at t b bs), advance_within z (b ∷ bs) env t' (honest.accepts t _))
        (elim (List-cases (drop (pos_part z) (b ∷ bs))) [
          | inl done ↦
              let whole = drop_nil-take (pos_part z) (b ∷ bs) done in
              rw done
                (returns (taken ∙ ap (λ l. sent s t ++ l) whole, refl, some.some_at t b bs, refl))
          | inr (y, ys, more) ↦
              let shorter : length ys < k = omega (
                arith,
                length-drop (pos_part z) (b ∷ bs),
                ap (λ (l : List ℕ). length l) more,
                pos_part_pos z (some.some_at t b bs),
              ) in
              rw more (
                Meets-mono (write_chunk-sends honest some k t' y ys shorter)
                  λ (rc, rest) u (e, r, p, n).
                    (e ∙ sent_rest (sent s t) (pos_part z) (b ∷ bs) taken more, r, p, n))
        ])

  -- The call is made again while it would block, in non-blocking mode.
  pub write_retry-Meets :
      IsHonest env s
      → (k : ℕ) (t : Trace) (buf : List ℕ) → IsSentPart s t
      → Meets {J = J} (within (IsSentPart s)) (Written s t buf) (write_retry s k buf env t)
  unfolding write_retry waitsocket sent received
  write_retry-Meets honest zero t buf part = spins part
  write_retry-Meets honest (suc k) t buf part =
      let z = env.accept t s buf in
      elim (Bool-cases (is_eagain z)) [
        | inl again ↦
            let unsent = sent-failed s buf z t (eagain_neg z again) in
            rw again (
              Meets-mono
                (write_retry-Meets honest k _ buf (part.0, ap (λ l. l ++ part.0) unsent ∙ part.1))
                λ rc t' (e, r, le). (e ∙ ap (λ l. l ++ take (pos_part rc) buf) unsent, r, le))
        | inr done ↦ rw done (returns (sent-wrote s buf z t, refl, honest.accepts t buf))
      ]

  pub write_retry-IsWriter : (k : ℕ) → IsHonest env s → IsWriter {J = J} env s (write_retry s k)
  write_retry-IsWriter k honest = record { writes = write_retry-Meets honest k }
