-- ===== src/Base/Text.antt =====
-- Texts as lists of bytes, and C's `strstr`.
use Prim.Native.Nat.{ℕ, zero, suc, ◌≤◌, ◌+◌, ◌-◌, ◌*◌, ◌/◌, ◌%◌}
use Prim.Native.Char.{code}
use Prim.Native.String.{String}
use mathlib.Core.Path.{◌≡◌, refl, ap}
use mathlib.Core.Logic.{inl, inr}
use mathlib.Core.Bool.{Bool, true, false, ◌&&◌, ◌||◌}
use mathlib.Core.Option
use mathlib.Core.Option.{Option, none, some}
use mathlib.Core.List.{List, [], ◌∷◌, ◌++◌}
use native.Mathlib.Omega.{arith}
use cloudssh.Base.Tests.{◌==◌, leb, ltb, if◌then◌else◌, Bool-cases}
use cloudssh.Base.Int.{ℤ, pos, negsuc}
use cloudssh.Base.Lists.{length, drop}

abbrev pub codes : String → List ℕ
codes String.[] = []
codes (String.◌∷◌ c s) = code c ∷ codes s

unfoldable pub starts_with : List ℕ → List ℕ → Bool
starts_with [] hay = true
starts_with (c ∷ needle) [] = false
starts_with (c ∷ needle) (d ∷ hay) = (c == d) && starts_with needle hay

-- The position of the first occurrence.
unfoldable pub find : List ℕ → List ℕ → Option ℕ
unfolding starts_with
find needle [] = if starts_with needle [] then some 0 else none
find needle (d ∷ hay) =
    let later = Option.map suc (find needle hay) in
    if starts_with needle (d ∷ hay) then some 0 else later

-- The characters before the terminating 0, and whether there is one.
unfoldable pub cstring : List ℕ → List ℕ
cstring [] = []
cstring (c ∷ s) = if c == 0 then [] else c ∷ cstring s

unfoldable pub has_nul : List ℕ → Bool
has_nul [] = false
has_nul (c ∷ s) = c == 0 || has_nul s

pub starts_with-append :
    (needle hay : List ℕ) → starts_with needle hay ≡ true → (rest : List ℕ) × (hay ≡ needle ++ rest)
unfolding starts_with
starts_with-append [] hay h = (hay, refl)
starts_with-append (c ∷ needle) [] h = absurd (ground arith)
starts_with-append (c ∷ needle) (d ∷ hay) h =
    let (rest, e) = starts_with-append needle hay (ground arith) in
    let same : d ≡ c = ground arith in (rest, cc (same, e))

pub find-occurs :
    (needle hay : List ℕ) (n : ℕ)
    → find needle hay ≡ some n
    → (rest : List ℕ) × (drop n hay ≡ needle ++ rest) × (n ≤ length hay)
unfolding find
find-occurs needle [] n h = elim (Bool-cases (starts_with needle [])) [
  | inl at_start ↦
      let zero_at : n ≡ 0 = ground arith in
      let (rest, e) = starts_with-append needle [] at_start in rw zero_at (rest, e, omega arith)
  | inr absent ↦ absurd (ground arith)
]
find-occurs needle (d ∷ hay) n h = elim (Bool-cases (starts_with needle (d ∷ hay))) [
  | inl at_start ↦
      let zero_at : n ≡ 0 = ground arith in
      let (rest, e) = starts_with-append needle (d ∷ hay) at_start in
      rw zero_at (rest, e, omega arith)
  | inr absent ↦
      let later : Option.map suc (find needle hay) ≡ some n = rw absent at h in
      let (m, found, next) = (Option.map-eq-some_iff suc (find needle hay)).0 later in
      let (rest, e, le) = find-occurs needle hay m found in rw (← next) (rest, e, omega arith)
]

pub cstring-append : (s : List ℕ) → (rest : List ℕ) × (cstring s ++ rest ≡ s)
unfolding cstring
cstring-append [] = ([], refl)
cstring-append (c ∷ s) = elim (Bool-cases (c == 0)) [
  | inl nul ↦ rw nul (c ∷ s, refl)
  | inr char ↦ let (rest, e) = cstring-append s in rw char (rest, ap (λ l. c ∷ l) e)
]

-- The decimal digits of a number that has at most `k` of them.
unfoldable pub digits : ℕ → ℕ → List ℕ
digits zero n = []
digits (suc k) n =
    let rest = digits k (n / 10) in if ltb n 10 then (48 + n) ∷ [] else rest ++ (48 + n % 10) ∷ []

-- atoi: the digits up to the first other character, behind blanks and a sign.
unfoldable pub leading_number : ℕ → List ℕ → ℕ
leading_number acc [] = acc
leading_number acc (c ∷ s) =
    if leb 48 c && leb c 57 then leading_number (acc * 10 + (c - 48)) s else acc

unfoldable pub negated : ℕ → ℤ
negated zero = pos 0
negated (suc n) = negsuc n

unfoldable pub atoi : List ℕ → ℤ
unfolding leading_number negated
atoi [] = pos 0
atoi (c ∷ s) =
    let rest = atoi s in
    if c == 32 || (leb 9 c && leb c 13)
    then rest
    else if c == 43
    then pos (leading_number 0 s)
    else if c == 45
    then negated (leading_number 0 s)
    else pos (leading_number 0 (c ∷ s))
