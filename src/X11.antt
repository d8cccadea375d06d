-- ===== src/X11.antt =====
-- example/x11.c: the list of X11 connections, in C's memory. A node is at an address; `none` there
-- is memory that is not allocated. The global `gp_x11_chan` is the field `head`.
pub mod Chain
pub mod Remove
pub mod Append
pub mod Display
pub mod Exchange
use cloudssh.Base.{ℕ, zero, suc, Option, none, some, ◌==◌, if◌then◌else◌}

abbrev pub Ptr : Type 0
Ptr = ℕ

abbrev pub null : Ptr
null = 0

-- struct chan_X11_list
pub record Node : Type 0 where
  pub chan : ℕ
  pub sock : ℕ
  pub next : Ptr

abbrev pub node : ℕ → ℕ → Ptr → Node
node c s q = record { chan = c; sock = s; next = q }

abbrev pub Heap : Type 0
Heap = Ptr → Option Node

pub record Store : Type 0 where
  pub heap : Heap
  pub head : Ptr

-- How a function on the list ends.
pub data Outcome : Type 0 where
  done : Store → Outcome
  fault : Outcome
  spin : Outcome

unfoldable pub put : Heap → Ptr → Option Node → Heap
put h p c a = if a == p then c else h a

-- free(p): nothing happens at NULL, and freeing what is not allocated is undefined.
unfoldable pub free : Store → Ptr → Outcome
free s p =
    if p == null
    then done s
    else elim (s.heap p) [ none ↦ fault | some n ↦ done (record s { heap = put s.heap p none }) ]

-- The loop of `remove_node`: `current_node` does not change between rounds.
unfoldable pub remove_loop : ℕ → Store → Ptr → Ptr → Outcome
unfolding free
remove_loop zero s current elem = spin
remove_loop (suc k) s current elem = elim (s.heap current) [
  | none ↦ fault
  | some n ↦
      if n.next == null
      then done s
      else if n.next == elem
      then elim (s.heap n.next) [
        | none ↦ fault
        | some m ↦
            free (record s { heap = put s.heap current (some (node n.chan n.sock m.next)) }) m.next
      ]
      else remove_loop k s current elem
]

unfoldable pub remove_node : ℕ → Store → Ptr → Outcome
unfolding remove_loop free
remove_node k s elem =
    if s.head == elem
    then elim (s.heap s.head) [ none ↦ fault | some n ↦ free (record s { head = n.next }) elem ]
    else remove_loop k s s.head elem

-- The walk of `x11_callback` to the last node, and the write of the new node behind it.
unfoldable pub append_loop : ℕ → Store → Ptr → Ptr → Outcome
append_loop zero s chan_iter new = spin
append_loop (suc k) s chan_iter new = elim (s.heap chan_iter) [
  | none ↦ fault
  | some n ↦
      if n.next == null
      then done (record s { heap = put s.heap chan_iter (some (node n.chan n.sock new)) })
      else append_loop k s n.next new
]

-- What `x11_callback` does once its socket is connected; `new` is what malloc or calloc returned,
-- which is not tested.
unfoldable pub add_connection : ℕ → Store → Ptr → ℕ → ℕ → Outcome
unfolding append_loop
add_connection k s new channel sock =
    if new == null
    then fault
    else (let filled = put s.heap new (some (node channel sock null)) in
        if s.head == null
        then done (record { heap = filled; head = new })
        else append_loop k (record s { heap = filled }) s.head new)
