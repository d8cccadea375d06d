-- ===== src/Netconf/Read.antt =====
-- What `netconf_read_until` returns.
use cloudssh.Base.{ℕ, ◌≤◌, ◌≡◌, false, Option, none, some, List, ◌++◌, length, take, drop}
use cloudssh.Base.Text.{has_nul}
use cloudssh.Api.{Stream, Trace, Run, ret, undefined, spin, received}
use cloudssh.Netconf.{delimiter}

-- `endtag` occurs at `p` in the text, and the delimiter at `n`, not before it.
pub record IsFramed (endtag buf : List ℕ) (n : ℕ) : Type 0 where
  pub tag_at : ℕ
  pub after_tag : List ℕ
  pub after_delimiter : List ℕ
  pub tag : drop tag_at buf ≡ endtag ++ after_tag
  pub ending : drop n buf ≡ delimiter ++ after_delimiter
  pub order : tag_at ≤ n
  pub inside : n ≤ length buf

-- A reply: the text, and the position of its delimiter in all that was read.
abbrev pub IsReply : List ℕ → List ℕ → ℕ → Option (List ℕ) → Trace → Type 0
IsReply before endtag buflen none u = Unit
IsReply before endtag buflen (some xml) u =
    (all : List ℕ) × (received Stream.channel u ≡ before ++ all)
    × (take (length xml) all ≡ xml)
    × IsFramed endtag all (length xml)
    × (length all ≤ buflen)

-- How the function may end: with a reply or -1; or past the end of an array that was filled with
-- no 0 in it.
pub data EndsWell (before endtag : List ℕ) (buflen : ℕ) {J : Type 0}
    : Run J (Option (List ℕ)) → Type 0 where
  replied :
      {r : Option (List ℕ)} {u : Trace}
      → IsReply before endtag buflen r u
      → EndsWell before endtag buflen (ret r u)
  overread :
      {u : Trace} (buf : List ℕ)
      → received Stream.channel u ≡ before ++ buf
      → buflen ≤ length buf
      → has_nul buf ≡ false
      → EndsWell before endtag buflen (undefined u)
  waiting : {u : Trace} → EndsWell before endtag buflen (spin u)
