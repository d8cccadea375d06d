-- ===== src/Api/Flow.antt =====
-- The data in a trace: the bytes taken from a stream, those offered to it and those it accepted.
use cloudssh.Base.{
  ℕ, ◌≤◌, ◌≡◌, ◌∙◌, true, append-nil, ap, drop-length-append, ==-refl, List, [], ◌∷◌, ◌++◌,
  if◌then◌else◌, take, drop, length,
}
use cloudssh.Base.Int.{ℤ, pos_part, is_pos, is_neg, neg_part_zero}
use cloudssh.Api.Calls.{Stream, Input, bytes, same, stream_id, contents}
use cloudssh.Api.Action.{called, wrote, took, Trace, Env}

unfoldable pub received : Stream → Trace → List ℕ
received s [] = []
received s (called c z ∷ t) = received s t
received s (wrote s' bs z ∷ t) = received s t
received s (took s' n i ∷ t) =
    let rest = received s t in if same s s' then rest ++ contents i else rest

unfoldable pub offered : Stream → Trace → List ℕ
offered s [] = []
offered s (called c z ∷ t) = offered s t
offered s (wrote s' bs z ∷ t) = let rest = offered s t in if same s s' then rest ++ bs else rest
offered s (took s' n i ∷ t) = offered s t

-- The first `rc` bytes of each write are taken by the other side.
unfoldable pub sent : Stream → Trace → List ℕ
sent s [] = []
sent s (called c z ∷ t) = sent s t
sent s (wrote s' bs z ∷ t) =
    let rest = sent s t in if same s s' then rest ++ take (pos_part z) bs else rest
sent s (took s' n i ∷ t) = sent s t

-- What the manuals promise of a stream: a write takes no more than it is offered, a read gives
-- no more than it is asked for.
pub record IsHonest (env : Env) (s : Stream) : Type 0 where
  pub accepts : (t : Trace) (bs : List ℕ) → pos_part (env.accept t s bs) ≤ length bs
  pub gives : (t : Trace) (n : ℕ) → length (contents (env.input t s n)) ≤ n

-- A regular file that is read from its start and does not change meanwhile.
pub record ReadsFile (env : Env) (s : Stream) (content : List ℕ) : Type 0 where
  pub next :
      (t : Trace) (n : ℕ) → env.input t s n ≡ bytes (take n (drop (length (received s t)) content))

-- A write of something takes a part of it at once.
pub record TakesSome (env : Env) (s : Stream) : Type 0 where
  pub some_at : (t : Trace) (b : ℕ) (bs : List ℕ) → is_pos (env.accept t s (b ∷ bs)) ≡ true

-- An accepted write is added at the end, and one that fails adds nothing.
pub sent-wrote :
    (s : Stream) (bs : List ℕ) (z : ℤ) (t : Trace)
    → sent s (wrote s bs z ∷ t) ≡ sent s t ++ take (pos_part z) bs
unfolding sent
sent-wrote s bs z t = rw (==-refl (stream_id s))

pub sent-failed :
    (s : Stream) (bs : List ℕ) (z : ℤ) (t : Trace)
    → is_neg z ≡ true
    → sent s (wrote s bs z ∷ t) ≡ sent s t
sent-failed s bs z t h = sent-wrote s bs z t ∙ rw (neg_part_zero z h) (append-nil (sent s t))

pub offered-wrote :
    (s : Stream) (bs : List ℕ) (z : ℤ) (t : Trace)
    → offered s (wrote s bs z ∷ t) ≡ offered s t ++ bs
unfolding offered
offered-wrote s bs z t = rw (==-refl (stream_id s))

pub received-took :
    (s : Stream) (n : ℕ) (i : Input) (t : Trace)
    → received s (took s n i ∷ t) ≡ received s t ++ contents i
unfolding received
received-took s n i t = rw (==-refl (stream_id s))

-- What a file gives next, where `left` is still to be read.
pub next_read :
    {env : Env} (s : Stream) {content : List ℕ}
    → ReadsFile env s content
    → (n : ℕ) (t : Trace) (left : List ℕ) → received s t ++ left ≡ content
    → env.input t s n ≡ bytes (take n left)
next_read s file n t left h =
    file.next t n ∙ rw (← h) (ap (λ l. bytes (take n l)) (drop-length-append (received s t) left))
