-- ===== src/Programs/Listing/Lines.antt =====
-- What the directory listings print.
use cloudssh.Base.{ℕ, suc, List, [], ◌∷◌, ◌++◌, ◌≡◌, drop, is_empty, if◌then◌else◌}
use cloudssh.Base.Int.{ℤ, pos}
use cloudssh.Base.Text.{codes, cstring}
use cloudssh.Api.{
  Stream, bytes, Env, Trace, called, wrote, took, offered, Exits, Meets, dir_flags, dir_uid,
  dir_gid, dir_size,
}
use cloudssh.Programs.Start.{Main}
use cloudssh.Programs.Listing.{attributes_line}

-- An entry of the directory; its name is not empty.
pub record Entry : Type 0 where
  pub first : ℕ
  pub others : List ℕ
  pub long : List ℕ
  pub flags : ℕ
  pub uid : ℕ
  pub gid : ℕ
  pub size : ℕ

abbrev pub name : Entry → List ℕ
name e = e.first ∷ e.others

-- How many names were read.
abbrev pub names_read : Trace → ℕ
names_read [] = 0
names_read (called c z ∷ t) = names_read t
names_read (wrote s bs z ∷ t) = names_read t
names_read (took Stream.remote_dir n i ∷ t) = suc (names_read t)
names_read (took s n i ∷ t) = names_read t

-- The entry whose name was read last.
abbrev pub IsLast : List Entry → Entry → Trace → Type 0
IsLast entries e t =
    (n : ℕ) × (rest : List Entry) × (names_read t ≡ suc n) × (drop n entries ≡ e ∷ rest)

-- A server that gives the entries one by one, and then no name; what else it gives belongs to the
-- entry whose name was read last.
pub record ListsDir (env : Env) (entries : List Entry) : Type 0 where
  pub name_at :
      (t : Trace) (e : Entry) (rest : List Entry)
      → drop (names_read t) entries ≡ e ∷ rest
      → env.input t Stream.remote_dir 512 ≡ bytes (name e)
  pub end_at :
      (t : Trace) → drop (names_read t) entries ≡ [] → env.input t Stream.remote_dir 512 ≡ bytes []
  pub long_at :
      (t : Trace) (e : Entry)
      → IsLast entries e t
      → env.input t Stream.long_entry 512 ≡ bytes e.long
  pub flags_at : (t : Trace) (e : Entry) → IsLast entries e t → env.reply t dir_flags ≡ pos e.flags
  pub uid_at : (t : Trace) (e : Entry) → IsLast entries e t → env.reply t dir_uid ≡ pos e.uid
  pub gid_at : (t : Trace) (e : Entry) → IsLast entries e t → env.reply t dir_gid ≡ pos e.gid
  pub size_at : (t : Trace) (e : Entry) → IsLast entries e t → env.reply t dir_size ≡ pos e.size

-- One line of each listing, and all lines.
abbrev pub short_line : Entry → List ℕ
short_line e = attributes_line (name e) e.flags e.uid e.gid e.size

abbrev pub long_line : Entry → List ℕ
long_line e = if is_empty (cstring e.long) then short_line e else cstring e.long ++ codes "\n"

abbrev pub lines : (Entry → List ℕ) → List Entry → List ℕ
lines line [] = []
lines line (e ∷ es) = line e ++ lines line es

-- Where `n` names are read and `out` is printed.
abbrev pub HasListed : ℕ → List ℕ → Trace → Type 0
HasListed n out t = (names_read t ≡ n) × (offered Stream.stdout t ≡ out)

abbrev pub only_returns : Exits (Unit {0})
only_returns = record { jumping = λ j t. ⊥; leaving = λ z t. ⊥; running = λ t. ⊥ }

module _ {env : Env} {entries : List Entry} (dir : ListsDir env entries) where
  -- What a print of the entry `e` must do after its name was read.
  abbrev Prints : (Entry → List ℕ) → (List ℕ → Main ℤ) → Type 0
  Prints line print =
      (n : ℕ) (e : Entry) (out : List ℕ) (t : Trace)
      → IsLast entries e t
      → HasListed n out t
      → Meets only_returns (λ z. HasListed n (out ++ line e)) (print (name e) env t)
