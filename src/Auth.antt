-- ===== src/Auth.antt =====
-- The choice of the login method in example/sftp.c, which example/sftpdir.c and ssh2.c share:
-- which methods the server offers, what the fifth argument asks for, and which one is tried.
pub mod Choice
use Prim.Native.String.{String}
use cloudssh.Base.{
  ℕ, zero, suc, ◌+◌, ◌%◌, ◌/◌, ◌==◌, leb, Bool, true, false, ◌&&◌, Option, none, some, List, [],
  ◌∷◌, if◌then◌else◌,
}
use cloudssh.Base.Text.{codes, find}
use cloudssh.Api.{Method}

-- strstr(userauthlist, name) != NULL
unfoldable pub offers : String → List ℕ → Bool
unfolding find
offers name text = elim (find (codes name) text) [ none ↦ false | some n ↦ true ]

-- The bits of `auth_pw`: 1 for a password, 2 for keyboard-interactive, 4 for a public key.
unfoldable pub auth_flags : List ℕ → ℕ
unfolding offers
auth_flags text =
    (if offers "password" text then 1 else 0)
    + (if offers "keyboard-interactive" text then 2 else 0)
    + (if offers "publickey" text then 4 else 0)

abbrev pub bit : ℕ → ℕ → Bool
bit flags n = flags / n % 2 == 1

-- tolower on ASCII.
abbrev pub lower : ℕ → ℕ
lower c = if leb 65 c && leb c 90 then c + 32 else c

-- !strcasecmp(s, t)
unfoldable pub same_text : List ℕ → List ℕ → Bool
same_text [] [] = true
same_text [] (d ∷ t) = false
same_text (c ∷ s) [] = false
same_text (c ∷ s) (d ∷ t) = (lower c == lower d) && same_text s t

abbrev pub narrow : String → ℕ → String → ℕ → ℕ
narrow option n wanted flags =
    if bit flags n && same_text (codes option) (codes wanted) then n else flags

-- The option narrows the choice to one method, if the server offers it.
unfoldable pub prefer : Option String → ℕ → ℕ
prefer none flags = flags
prefer (some option) flags =
    narrow option 4 "-k" (narrow option 2 "-i" (narrow option 1 "-p" flags))

unfoldable pub choose : ℕ → Option Method
choose flags =
    if bit flags 1
    then some Method.password
    else if bit flags 2
    then some Method.keyboard_interactive
    else if bit flags 4
    then some Method.publickey
    else none

-- What the program does with the server's list and the argument.
unfoldable pub selected : Option String → List ℕ → Option Method
unfolding auth_flags prefer choose
selected option text = choose (prefer option (auth_flags text))
