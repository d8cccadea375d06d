-- ===== src/Tests/Listings.antt =====
-- The listings of a directory with one file.
use cloudssh.Base.{ℕ, List, [], ◌∷◌, drop}
use cloudssh.Base.Int.{ℤ, pos}
use cloudssh.Api.{Stream, Call, Input, bytes, Env, Trace, dir_flags, dir_uid, dir_gid, dir_size}
use cloudssh.Programs.Listing.Lines.{Entry, name, names_read}

-- A file `a` of the user 1000, without a long form.
abbrev one_file : Entry
one_file = record {
  first = 97;
  others = [];
  long = [];
  flags = 7;
  uid = 1000;
  gid = 100;
  size = 42;
}

abbrev next_name : List Entry → Input
next_name [] = bytes []
next_name (e ∷ es) = bytes (name e)

abbrev one_input : Trace → Stream → ℕ → Input
one_input t Stream.remote_dir n = next_name (drop (names_read t) (one_file ∷ []))
one_input t s n = bytes []

abbrev one_reply : Trace → Call → ℤ
one_reply t dir_flags = pos 7
one_reply t dir_uid = pos 1000
one_reply t dir_gid = pos 100
one_reply t dir_size = pos 42
one_reply t c = pos 1

abbrev one_server : Env
one_server = record { reply = one_reply; accept = λ t s bs. pos 1; input = one_input }

abbrev head_or : Entry → List Entry → Entry
head_or d [] = d
head_or d (e ∷ es) = e
