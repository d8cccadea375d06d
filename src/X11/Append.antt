-- ===== src/X11/Append.antt =====
-- What `x11_callback` does to the list.
use cloudssh.Base.{
  ℕ, zero, suc, ◌<◌, ◌≤◌, ◌≡◌, ◌∙◌, refl, true, false, some, List, [], ◌∷◌, ◌++◌, arith, ◌==◌,
  length,
}
use cloudssh.X11.{Ptr, null, node, Heap, Store, put, done, append_loop, add_connection}
use cloudssh.X11.Chain.{Conn, held, IsChain, Holds, IsChain-put, put-same, put-other}

abbrev pub conn : Ptr → ℕ → ℕ → Conn
conn a c s = record { addr = a; chan = c; sock = s }

held-append :
    (a : Ptr) (cs : List Conn) (c : Conn)
    → held a cs ≡ false
    → (a == c.addr) ≡ false
    → held a (cs ++ c ∷ []) ≡ false
held-append a [] c out other = ground arith
held-append a (d ∷ cs) c out other =
    let rest = held-append a cs c (ground arith) other in ground arith

-- The heap after the new node is written behind the last one.
append_loop-IsChain :
    (k : ℕ) (h : Heap) (hd p : Ptr) (c : Conn) (cs : List Conn) (new : Conn)
    → IsChain h p (c ∷ cs)
    → IsChain h new.addr (new ∷ [])
    → held new.addr (c ∷ cs) ≡ false
    → length (c ∷ cs) ≤ k
    → (h' : Heap) × (append_loop k (record { heap = h; head = hd }) p new.addr
        ≡ done (record { heap = h'; head = hd }))
      × IsChain h' p (c ∷ cs ++ new ∷ [])
      × ((a : Ptr) → held a (c ∷ cs) ≡ false → h' a ≡ h a)
unfolding append_loop
append_loop-IsChain zero h hd p c cs new chain last out enough = absurd (omega arith)
append_loop-IsChain (suc k) h hd p c [] new (q, at, pos, here, fresh, end)
      (r, same, above, cell, f, nil) out enough =
    let stop : (q == null) ≡ true = ground arith in
    let added = some (node c.chan c.sock new.addr) in
    let other : (new.addr == p) ≡ false = ground arith in
    let apart : (p == new.addr) ≡ false = ground arith in
    let kept = put-other h p new.addr added other ∙ cell in
    rw (append_loop, here, stop)
      (
        put h p added,
        refl,
        (new.addr, at, pos, put-same h p added, ground arith, (r, refl, above, kept, refl, nil)),
        λ a elsewhere. put-other h p a added (ground arith),
      )
append_loop-IsChain (suc k) h hd p c (d ∷ cs) new (q, at, pos, here, fresh, rest) last out enough =
    let (r, at', pos', here', fresh', more) = rest in
    let go : (q == null) ≡ false = ground arith in
    let (h', ran, chain, frame) =
      append_loop-IsChain k h hd q d cs new rest last (ground arith) (omega arith) in
    let untouched = frame p fresh ∙ here in
    let apart : (p == new.addr) ≡ false = ground arith in
    rw (append_loop, here, go)
      (
        h',
        ran,
        (q, at, pos, untouched, held-append p (d ∷ cs) new fresh apart, chain),
        λ a elsewhere. frame a (ground arith),
      )

-- With memory for the node and a walk that is long enough, the new connection is the last of the
-- list, and all others are still in it, in their order.
pub add_connection-appends :
    (k : ℕ) (s : Store) (cs : List Conn) (new : Ptr) (channel sock : ℕ)
    → Holds s cs
    → 0 < new
    → held new cs ≡ false
    → length cs ≤ k
    → (s' : Store) × (add_connection k s new channel sock ≡ done s')
      × Holds s' (cs ++ conn new channel sock ∷ [])
unfolding add_connection
add_connection-appends k s [] new channel sock holds above out enough =
    let cell = some (node channel sock null) in
    let memory : (new == null) ≡ false = ground arith in
    let empty : (s.head == null) ≡ true = ground arith in
    rw (memory, empty)
      (
        record { heap = put s.heap new cell; head = new },
        refl,
        (null, refl, above, put-same s.heap new cell, refl, refl),
      )
add_connection-appends k s (c ∷ cs) new channel sock holds above out enough =
    let cell = some (node channel sock null) in
    let (q, at, pos, here, fresh, more) = holds in
    let memory : (new == null) ≡ false = ground arith in
    let some_head : (s.head == null) ≡ false = ground arith in
    let chain = IsChain-put s.heap s.head new cell (c ∷ cs) out holds in
    let last : IsChain (put s.heap new cell) new (conn new channel sock ∷ []) =
      (null, refl, above, put-same s.heap new cell, refl, refl) in
    let (h', ran, chain', frame) =
      append_loop-IsChain k (put s.heap new cell) s.head s.head c cs (conn new channel sock) chain
        last out enough in
    rw (memory, some_head) (record { heap = h'; head = s.head }, ran, chain')
