-- ===== src/Netconf.antt =====
-- example/subsystem_netconf.c: framed requests and replies over a channel.
pub mod Write
pub mod Read
use cloudssh.Base.{
  ℕ, zero, suc, ◌+◌, ◌-◌, ◌&&◌, ◌||◌, Bool, Option, none, some, List, [], ◌++◌, if◌then◌else◌,
  length, ltb, take, drop,
}
use cloudssh.Base.Int.{ℤ, pos, minus_one, is_neg, is_pos, is_eagain, pos_part}
use cloudssh.Base.Text.{codes, find, cstring, has_nul}
use cloudssh.Api.{
  Stream, Prog, result, contents, pure, goto, fault, out_of_rounds, read, write, ◌>>=◌, ◌>>◌,
}

-- The end of a NETCONF message.
abbrev pub delimiter : List ℕ
delimiter = codes "]]>]]>"

-- endreply = strstr(buf, endtag); if (endreply) specialsequence = strstr(endreply, "]]>]]>");
-- as a position in `buf`.
pub special_sequence : List ℕ → List ℕ → Option ℕ
unfolding find cstring
special_sequence endtag buf = elim (find endtag (cstring buf)) [
  | none ↦ none
  | some p ↦ elim (find delimiter (drop p (cstring buf))) [ none ↦ none | some q ↦ some (p + q) ]
]

module _ {J : Type 0} where
  -- do { i = libssh2_channel_write(channel, buf, len); … wr += i; } while (i > 0 && wr < len);
  unfoldable pub netconf_write_loop : ℕ → ℕ → List ℕ → Prog J ℤ
  netconf_write_loop zero wr buf = out_of_rounds
  netconf_write_loop (suc k) wr buf = do
    i ← write Stream.channel buf
    if is_neg i
        then pure minus_one
        else if is_pos i && ltb (wr + pos_part i) (length buf)
        then netconf_write_loop k (wr + pos_part i) buf
        else pure (pos 0)

  unfoldable pub netconf_write : ℕ → List ℕ → Prog J ℤ
  unfolding netconf_write_loop
  netconf_write k buf = netconf_write_loop k 0 buf

  -- `buf` holds the bytes read so far; behind them the array is 0. `strstr` on an array that holds
  -- no 0 reads past its end. The result is the text before the delimiter, or `none` for -1.
  unfoldable pub read_until_loop : List ℕ → ℕ → ℕ → List ℕ → Prog J (Option (List ℕ))
  read_until_loop endtag buflen zero buf = out_of_rounds
  read_until_loop endtag buflen (suc k) buf = do
    len ← read Stream.channel (buflen - length buf)
    if is_eagain (result len)
        then (if ltb (length buf) buflen then read_until_loop endtag buflen k buf else pure none)
        else if is_neg (result len)
        then pure none
        else (let filled = buf ++ contents len in
            if ltb (length filled) buflen || has_nul filled
            then elim (special_sequence endtag filled) [
              | some rd ↦ pure (some (take rd filled))
              | none ↦
                  if ltb (length filled) buflen
                  then read_until_loop endtag buflen k filled
                  else pure none
            ]
            else fault)

  unfoldable pub netconf_read_until : ℕ → List ℕ → ℕ → Prog J (Option (List ℕ))
  unfolding read_until_loop special_sequence has_nul
  netconf_read_until k endtag buflen = read_until_loop endtag buflen k []
