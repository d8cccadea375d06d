-- ===== src/Tests/Server.antt =====
-- Servers and files to run the programs with.
use cloudssh.Base.{
  ℕ, suc, ◌≤◌, min, List, [], ◌∷◌, ◌≡◌, refl, true, arith, take, drop, length, length-take,
}
use cloudssh.Base.Int.{ℤ, pos, is_pos, minus_one}
use cloudssh.Api.{
  Env, Trace, Stream, Call, bytes, received, IsHonest, ReadsFile, TakesSome, lib_init, connect,
  session_handshake, userauth,
}
use cloudssh.Forward.Resend.{TakesAll}

abbrev pub file : List ℕ
file = 10 ∷ 20 ∷ 30 ∷ 40 ∷ 50 ∷ []

-- These calls answer 0 where they succeed, the others a pointer or a count.
abbrev pub good_reply : Trace → Call → ℤ
good_reply t lib_init = pos 0
good_reply t (connect s h p) = pos 0
good_reply t session_handshake = pos 0
good_reply t (userauth m u p) = pos 0
good_reply t c = pos 1

-- Every call succeeds, every stream gives the same file, and a write takes two bytes at most.
abbrev pub slow_server : Env
slow_server = record {
  reply = good_reply;
  accept = λ t s bs. pos (min 2 (length bs));
  input = λ t s n. bytes (take n (drop (length (received s t)) file));
}

-- The same, where a write takes all it is offered.
abbrev pub fast_server : Env
fast_server = record {
  reply = good_reply;
  accept = λ t s bs. pos (length bs);
  input = λ t s n. bytes (take n (drop (length (received s t)) file));
}

-- The same as the slow server, but no password is right.
abbrev pub closed_server : Env
closed_server = record {
  reply = λ t c. minus_one;
  accept = λ t s bs. minus_one;
  input = λ t s n. bytes [];
}

take_le : (n : ℕ) (xs : List ℕ) → length (take n xs) ≤ n
take_le n xs = omega (arith, length-take n xs)

pub slow-IsHonest : (s : Stream) → IsHonest slow_server s
slow-IsHonest s = record {
  accepts = λ t bs. omega arith;
  gives = λ t n. take_le n (drop (length (received s t)) file);
}

pub fast-IsHonest : (s : Stream) → IsHonest fast_server s
fast-IsHonest s = record {
  accepts = λ t bs. omega arith;
  gives = λ t n. take_le n (drop (length (received s t)) file);
}

pub fast-TakesAll : (s : Stream) → TakesAll fast_server s
fast-TakesAll s = record { all_at = λ t bs. refl }

pub slow-ReadsFile : (s : Stream) → ReadsFile slow_server s file
slow-ReadsFile s = record { next = λ t n. refl }

pos_two : (n : ℕ) → is_pos (pos (min 2 (suc n))) ≡ true
pos_two n = ground arith

pub slow-TakesSome : (s : Stream) → TakesSome slow_server s
slow-TakesSome s = record { some_at = λ t b bs. pos_two (length bs) }
