-- ===== src/X11/Remove.antt =====
-- What `remove_node` does at each position of the list.
use cloudssh.Base.{
  ℕ, zero, suc, ◌<◌, ◌≡◌, ◌∙◌, refl, false, none, some, List, [], ◌∷◌, arith, ◌==◌, ==-refl,
}
use cloudssh.X11.{Ptr, null, Node, node, Store, put, done, spin, free, remove_loop, remove_node}
use cloudssh.X11.Chain.{Conn, held, Holds, IsChain-put, put-same, put-other}

free-cell :
    (s : Store) (p : Ptr) (n : Node)
    → 0 < p
    → s.heap p ≡ some n
    → free s p ≡ done (record s { heap = put s.heap p none })
unfolding free
free-cell s p n above here =
    let not_null : (p == null) ≡ false = ground arith in rw (not_null, here) refl

-- Where the element is the head of the list, the list goes on without it, and its memory is
-- given back.
pub remove_node-removes :
    (k : ℕ) (s : Store) (c : Conn) (cs : List Conn)
    → Holds s (c ∷ cs)
    → (s' : Store) × (remove_node k s c.addr ≡ done s') × Holds s' cs × (s'.heap c.addr ≡ none)
unfolding remove_node
remove_node-removes k s c cs (q, at, pos, here, fresh, rest) =
    let above : 0 < c.addr = rw (← at) pos in
    let kept : held c.addr cs ≡ false = rw (← at) fresh in
    let cell : s.heap c.addr ≡ some (node c.chan c.sock q) = rw (← at) here in
    let gone = free-cell (record s { head = q }) c.addr (node c.chan c.sock q) above cell in
    rw (at, ==-refl c.addr, cell, gone)
      (
        record { heap = put s.heap c.addr none; head = q },
        refl,
        IsChain-put s.heap q c.addr none cs kept rest,
        put-same s.heap c.addr none,
      )

found :
    (k : ℕ) (s : Store) (p : Ptr) (c d : Conn) (r : Ptr)
    → s.heap p ≡ some (node c.chan c.sock d.addr)
    → (d.addr == null) ≡ false
    → s.heap d.addr ≡ some (node d.chan d.sock r)
    → remove_loop (suc k) s p d.addr
      ≡ free (record s { heap = put s.heap p (some (node c.chan c.sock r)) }) r
unfolding remove_loop
found k s p c d r here more next = rw (remove_loop, here, more, ==-refl d.addr, next) refl

spin_loop :
    (k : ℕ) (s : Store) (p : Ptr) (n : Node) (elem : Ptr)
    → s.heap p ≡ some n
    → (n.next == null) ≡ false
    → (n.next == elem) ≡ false
    → remove_loop k s p elem ≡ spin
unfolding remove_loop
spin_loop zero s p n elem here more other = refl
spin_loop (suc k) s p n elem here more other =
    let rest = spin_loop k s p n elem here more other in
    rw (remove_loop, here, more, other, rest) refl

-- Where the list has two nodes and the element is the second, the list is right afterwards, but
-- the memory of the element is still allocated and nothing points to it.
pub remove_node-leaks :
    (k : ℕ) (s : Store) (c d : Conn)
    → Holds s (c ∷ d ∷ [])
    → (s' : Store) × (remove_node (suc k) s d.addr ≡ done s')
      × Holds s' (c ∷ [])
      × (s'.heap d.addr ≡ s.heap d.addr)
unfolding remove_node free
remove_node-leaks k s c d (p, at, pos, here, fresh, (q, at', pos', here', fresh', end)) =
    let apart : (s.head == d.addr) ≡ false = ground arith in
    let apart' : (d.addr == s.head) ≡ false = ground arith in
    let at_c : s.heap s.head ≡ some (node c.chan c.sock d.addr) = rw (← at') here in
    let at_d : s.heap d.addr ≡ some (node d.chan d.sock null) = rw (← at', ← end) here' in
    let more : (d.addr == null) ≡ false = ground arith in
    let cell = some (node c.chan c.sock null) in
    rw (apart, found k s s.head c d null at_c more at_d)
      (
        record s { heap = put s.heap s.head cell },
        refl,
        (null, at, pos, put-same s.heap s.head cell, refl, refl),
        put-other s.heap s.head d.addr cell apart',
      )

-- Where a node follows the element in second place, it is the following node that is freed, and
-- the list goes on pointing to it.
pub remove_node-dangles :
    (k : ℕ) (s : Store) (c d e : Conn) (cs : List Conn)
    → Holds s (c ∷ d ∷ e ∷ cs)
    → (s' : Store) × (remove_node (suc k) s d.addr ≡ done s')
      × (s'.head ≡ c.addr)
      × (s'.heap c.addr ≡ some (node c.chan c.sock e.addr))
      × (s'.heap e.addr ≡ none)
unfolding remove_node
remove_node-dangles k s c d e cs
      (
        p,
        at,
        pos,
        here,
        fresh,
        (q, at', pos', here', fresh', (r, at'', pos'', here'', fresh'', rest)),
      ) =
    let apart : (s.head == d.addr) ≡ false = ground arith in
    let apart' : (e.addr == s.head) ≡ false = ground arith in
    let apart'' : (s.head == e.addr) ≡ false = ground arith in
    let above : 0 < e.addr = rw (← at'') pos'' in
    let more : (d.addr == null) ≡ false = ground arith in
    let at_c : s.heap s.head ≡ some (node c.chan c.sock d.addr) = rw (← at') here in
    let at_d : s.heap d.addr ≡ some (node d.chan d.sock e.addr) = rw (← at', ← at'') here' in
    let at_e : s.heap e.addr ≡ some (node e.chan e.sock r) = rw (← at'') here'' in
    let cell = some (node c.chan c.sock e.addr) in
    let linked = put s.heap s.head cell in
    let kept : linked e.addr ≡ some (node e.chan e.sock r) =
      put-other s.heap s.head e.addr cell apart' ∙ at_e in
    let gone =
      free-cell (record { heap = linked; head = s.head }) e.addr (node e.chan e.sock r) above
        kept in
    rw (apart, found k s s.head c d e.addr at_c more at_d, gone)
      (
        record { heap = put linked e.addr none; head = s.head },
        refl,
        at,
        rw (← at) (put-other linked e.addr s.head none apart'' ∙ put-same s.heap s.head cell),
        put-same linked e.addr none,
      )

-- An element that is neither the first nor the second node is never removed: the loop over the
-- list does not end.
pub remove_node-spins :
    (k : ℕ) (s : Store) (c d : Conn) (cs : List Conn) (elem : Ptr)
    → Holds s (c ∷ d ∷ cs)
    → held elem (c ∷ d ∷ []) ≡ false
    → remove_node k s elem ≡ spin
unfolding remove_node
remove_node-spins k s c d cs elem (p, at, pos, here, fresh, (q, at', pos', here', fresh', rest))
      out =
    let not_head : (s.head == elem) ≡ false = ground arith in
    let more : (p == null) ≡ false = ground arith in
    let other : (p == elem) ≡ false = ground arith in
    rw not_head (spin_loop k s s.head (node c.chan c.sock p) elem here more other)
