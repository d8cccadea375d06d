-- ===== src/Auth/Choice.antt =====
-- The method that is tried.
use Prim.Native.String.{String}
use cloudssh.Base.{
  [], ◌∷◌, ◌==◌, ap, ==→≡, ℕ, ◌+◌, ◌≡◌, refl, Bool, true, false, ◌&&◌, Option, none, some, List,
  arith, inl, inr, Bool-cases, and_left, ◌∙◌, sym, if◌then◌else◌,
}
use cloudssh.Base.Text.{codes}
use cloudssh.Api.{Method}
use cloudssh.Auth.{offers, auth_flags, bit, lower, same_text, narrow, prefer, choose, selected}

-- The name under which a server offers a method.
abbrev pub name_of : Method → String
name_of Method.password = "password"
name_of Method.keyboard_interactive = "keyboard-interactive"
name_of Method.publickey = "publickey"

-- The method is among those of `flags`.
abbrev pub has : ℕ → Method → Bool
has flags Method.password = bit flags 1
has flags Method.keyboard_interactive = bit flags 2
has flags Method.publickey = bit flags 4

flags-has :
    (p i k : Bool)
    → let f : ℕ = (if p then 1 else 0) + (if i then 2 else 0) + (if k then 4 else 0) in
      (bit f 1 ≡ p) × (bit f 2 ≡ i) × (bit f 4 ≡ k)
flags-has false false false = (refl, refl, refl)
flags-has false false true = (refl, refl, refl)
flags-has false true false = (refl, refl, refl)
flags-has false true true = (refl, refl, refl)
flags-has true false false = (refl, refl, refl)
flags-has true false true = (refl, refl, refl)
flags-has true true false = (refl, refl, refl)
flags-has true true true = (refl, refl, refl)

auth_flags-has : (text : List ℕ) (m : Method) → has (auth_flags text) m ≡ offers (name_of m) text
unfolding auth_flags
auth_flags-has text Method.password =
    (flags-has (offers "password" text) (offers "keyboard-interactive" text)
      (offers "publickey" text)).0
auth_flags-has text Method.keyboard_interactive =
    (flags-has (offers "password" text) (offers "keyboard-interactive" text)
      (offers "publickey" text)).1
auth_flags-has text Method.publickey =
    (flags-has (offers "password" text) (offers "keyboard-interactive" text)
      (offers "publickey" text)).2

-- The bit of a method, and the option that asks for it.
abbrev pub bit_of : Method → ℕ
bit_of Method.password = 1
bit_of Method.keyboard_interactive = 2
bit_of Method.publickey = 4

abbrev pub option_of : Method → String
option_of Method.password = "-p"
option_of Method.keyboard_interactive = "-i"
option_of Method.publickey = "-k"

has-bit : (flags : ℕ) (m : Method) → has flags m ≡ bit flags (bit_of m)
has-bit flags Method.password = refl
has-bit flags Method.keyboard_interactive = refl
has-bit flags Method.publickey = refl

has_one : (m m' : Method) → has (bit_of m) m' ≡ true → m ≡ m'
has_one Method.password Method.password h = refl
has_one Method.keyboard_interactive Method.keyboard_interactive h = refl
has_one Method.publickey Method.publickey h = refl
has_one m m' h = absurd (ground arith)

-- Narrowing adds no method.
narrow-has :
    (option : String) (m m' : Method) (flags : ℕ)
    → has (narrow option (bit_of m) (option_of m) flags) m' ≡ true
    → has flags m' ≡ true
narrow-has option m m' flags h =
    elim (Bool-cases (bit flags (bit_of m) && same_text (codes option) (codes (option_of m)))) [
      | inl e ↦
          let only : has (bit_of m) m' ≡ true = rw e at h in
          rw (← has_one m m' only) (has-bit flags m ∙ and_left _ _ e)
      | inr e ↦ rw e at h
    ]

prefer-has :
    (option : Option String) (m : Method) (flags : ℕ)
    → has (prefer option flags) m ≡ true
    → has flags m ≡ true
unfolding prefer
prefer-has none m flags h = h
prefer-has (some option) m flags h =
    narrow-has option Method.password m flags
      (narrow-has option Method.keyboard_interactive m _ (narrow-has option Method.publickey m _ h))

choose-has : (flags : ℕ) (m : Method) → choose flags ≡ some m → has flags m ≡ true
unfolding choose
choose-has flags m h = elim (Bool-cases (bit flags 1)) [
  | inl e ↦
      let found : some Method.password ≡ some m = rw e at h in
      let same : Method.password ≡ m = ground arith in rw (← same) e
  | inr e ↦ elim (Bool-cases (bit flags 2)) [
    | inl e' ↦
        let found : some Method.keyboard_interactive ≡ some m = rw (e, e') at h in
        let same : Method.keyboard_interactive ≡ m = ground arith in rw (← same) e'
    | inr e' ↦ elim (Bool-cases (bit flags 4)) [
      | inl e'' ↦
          let found : some Method.publickey ≡ some m = rw (e, e', e'') at h in
          let same : Method.publickey ≡ m = ground arith in rw (← same) e''
      | inr e'' ↦ let found : none ≡ some m = rw (e, e', e'') at h in absurd (ground arith)
    ]
  ]
]

-- The method that is tried is one that the server offers, whatever the argument asks for.
pub selected-IsOffered :
    (option : Option String) (text : List ℕ) (m : Method)
    → selected option text ≡ some m
    → offers (name_of m) text ≡ true
unfolding selected
selected-IsOffered option text m h =
    sym (auth_flags-has text m) ∙ prefer-has option m (auth_flags text) (choose-has _ m h)

-- Two texts that are the same are the same as the same texts.
same_text_trans : (s u v : List ℕ) → same_text s u ≡ true → same_text s v ≡ same_text u v
unfolding same_text
same_text_trans [] [] v h = refl
same_text_trans [] (d ∷ u) v h = absurd (ground arith)
same_text_trans (c ∷ s) [] v h = absurd (ground arith)
same_text_trans (c ∷ s) (d ∷ u) [] h = refl
same_text_trans (c ∷ s) (d ∷ u) (e ∷ v) h =
    let heads : (lower c == lower d) ≡ true = and_left _ _ h in
    let same : lower c ≡ lower d = ==→≡ _ _ heads in
    let tails : same_text s u ≡ true = ground arith in rw (same, same_text_trans s u v tails) refl

other_option :
    (option : String) (m m' : Method)
    → same_text (codes option) (codes (option_of m)) ≡ true
    → same_text (codes (option_of m)) (codes (option_of m')) ≡ false
    → same_text (codes option) (codes (option_of m')) ≡ false
other_option option m m' h apart =
    same_text_trans (codes option) (codes (option_of m)) (codes (option_of m')) h ∙ apart

narrow_hit :
    (option : String) (n : ℕ) (wanted : String) (flags : ℕ)
    → bit flags n ≡ true
    → same_text (codes option) (codes wanted) ≡ true
    → narrow option n wanted flags ≡ n
narrow_hit option n wanted flags there asked = rw (there, asked) refl

narrow_miss :
    (option : String) (n : ℕ) (wanted : String) (flags : ℕ)
    → same_text (codes option) (codes wanted) ≡ false
    → narrow option n wanted flags ≡ flags
narrow_miss option n wanted flags other = elim (Bool-cases (bit flags n)) [
  | inl e ↦ rw (e, other) refl
  | inr e ↦ rw e refl
]

prefer-wanted :
    (option : String) (flags : ℕ) (m : Method)
    → bit flags (bit_of m) ≡ true
    → same_text (codes option) (codes (option_of m)) ≡ true
    → prefer (some option) flags ≡ bit_of m
unfolding prefer same_text
prefer-wanted option flags Method.password there asked =
    rw (narrow_hit option 1 "-p" flags there asked) refl
prefer-wanted option flags Method.keyboard_interactive there asked =
    let no_p = other_option option Method.keyboard_interactive Method.password asked refl in
    rw (narrow_miss option 1 "-p" flags no_p, narrow_hit option 2 "-i" flags there asked) refl
prefer-wanted option flags Method.publickey there asked =
    let no_p = other_option option Method.publickey Method.password asked refl in
    let no_i = other_option option Method.publickey Method.keyboard_interactive asked refl in
    rw (narrow_miss option 1 "-p" flags no_p, narrow_miss option 2 "-i" flags no_i)
      (narrow_hit option 4 "-k" flags there asked)

choose_one : (m : Method) → choose (bit_of m) ≡ some m
unfolding choose
choose_one Method.password = refl
choose_one Method.keyboard_interactive = refl
choose_one Method.publickey = refl

-- A method that the server offers is tried if the argument asks for it, whatever its case.
pub selected-wanted :
    (option : String) (text : List ℕ) (m : Method)
    → offers (name_of m) text ≡ true
    → same_text (codes option) (codes (option_of m)) ≡ true
    → selected (some option) text ≡ some m
unfolding selected
selected-wanted option text m offered asked =
    let there = sym (has-bit (auth_flags text) m) ∙ auth_flags-has text m ∙ offered in
    ap choose (prefer-wanted option (auth_flags text) m there asked) ∙ choose_one m
