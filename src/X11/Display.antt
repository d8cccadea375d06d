-- ===== src/X11/Display.antt =====
-- `x11_callback` of example/x11.c: from the variable DISPLAY to the connection in the list.
pub mod Number
use cloudssh.Base.{
  ℕ, ◌+◌, ◌-◌, ◌*◌, ◌==◌, leb, Bool, true, false, ◌&&◌, ◌||◌, Option, none, some, List, [], ◌∷◌,
  if◌then◌else◌,
}
use cloudssh.Base.Int.{ℤ, pos, pos_part, is_zero, is_neg, is_minus_one}
use cloudssh.Base.Text.{codes, starts_with, negated}
use cloudssh.Api.{
  Stream, Input, bytes, failed, Prog, call, read, pure, fault, out_of_rounds, ◌>>=◌, ◌>>◌,
  alloc_buf, free_buf, alloc_node, unix_socket, unix_connect, close_x11,
}
use cloudssh.X11
use cloudssh.X11.{Store, Outcome, done, spin, add_connection}

-- strncmp(display, "unix:", 5) == 0 || display[0] == ':'
unfoldable pub is_local : List ℕ → Bool
unfolding starts_with
is_local display = starts_with (codes "unix:") display || starts_with (codes ":") display

-- strrchr(s, c) + 1, or NULL.
unfoldable pub after_last : ℕ → List ℕ → Option (List ℕ)
after_last c [] = none
after_last c (d ∷ s) = elim (after_last c s) [
  | some rest ↦ some rest
  | none ↦ if d == c then some s else none
]

abbrev pub is_digit : ℕ → Bool
is_digit c = leb 48 c && leb c 57

-- atoi on an array without a terminating 0: `none` where the number goes on to the end of the
-- array, so that the next read is past it.
unfoldable pub number_within : ℕ → List ℕ → Option ℕ
number_within acc [] = none
number_within acc (c ∷ s) =
    let rest = number_within (acc * 10 + (c - 48)) s in if is_digit c then rest else some acc

abbrev pub as_positive : Option ℕ → Option ℤ
as_positive none = none
as_positive (some n) = some (pos n)

abbrev pub as_negative : Option ℕ → Option ℤ
unfolding negated
as_negative none = none
as_negative (some n) = some (negated n)

unfoldable pub atoi_within : List ℕ → Option ℤ
unfolding number_within
atoi_within [] = none
atoi_within (c ∷ s) =
    let rest = atoi_within s in
    if c == 32 || (leb 9 c && leb c 13)
    then rest
    else if c == 43
    then as_positive (number_within 0 s)
    else if c == 45
    then as_negative (number_within 0 s)
    else as_positive (number_within 0 (c ∷ s))

-- The array has the length of the text behind the last colon, without its terminating 0.
unfoldable pub display_number : List ℕ → Option ℤ
unfolding after_last atoi_within
display_number display = elim (after_last 58 display) [ none ↦ none | some rest ↦ atoi_within rest ]

module _ {J : Type 0} where
  unfoldable pub on_list : Outcome → Prog J Store
  on_list (done s) = pure s
  on_list X11.fault = fault
  on_list spin = out_of_rounds

  -- From the socket on: connect to /tmp/.X11-unix/X and the number.
  unfoldable pub connect_display : ℕ → Store → ℕ → ℤ → Prog J Store
  unfolding add_connection on_list
  connect_display k s channel port = do
    sock ← call unix_socket
    if is_neg sock then pure s else (do
      rc ← call (unix_connect port)
      if is_minus_one rc then call (close_x11 (pos_part sock)) >> pure s else (do
        new ← call alloc_node
        on_list (add_connection k s (pos_part new) channel (pos_part sock))))

  unfoldable pub x11_callback : ℕ → Store → ℕ → Prog J Store
  unfolding is_local display_number connect_display
  x11_callback k s channel = do
    display ← read Stream.display_text 0
    elim display [
      | failed n ↦ pure s
      | bytes text ↦
          if is_local text
          then (do
            temp_buff ← call alloc_buf
            if is_zero temp_buff then pure s else elim (display_number text) [
              | none ↦ fault
              | some port ↦ call free_buf >> connect_display k s channel port
            ])
          else pure s
    ]
