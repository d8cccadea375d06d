-- ===== src/X11/Chain.antt =====
-- What the linked list stands for.
use cloudssh.Base.{
  ℕ, ◌<◌, ◌≡◌, refl, Bool, false, ◌||◌, Option, some, List, [], ◌∷◌, arith, ◌==◌, ==-refl,
}
use cloudssh.X11.{Ptr, null, Node, node, Heap, Store, put}

-- A connection, with the address of its node.
pub record Conn : Type 0 where
  pub addr : Ptr
  pub chan : ℕ
  pub sock : ℕ

abbrev pub held : Ptr → List Conn → Bool
held a [] = false
held a (c ∷ cs) = (a == c.addr) || held a cs

-- From `p`, the nodes lead through the connections `cs`, at distinct addresses, to NULL.
abbrev pub IsChain : Heap → Ptr → List Conn → Type 0
IsChain h p [] = p ≡ null
IsChain h p (c ∷ cs) =
    (q : Ptr) × (p ≡ c.addr)
    × (0 < p)
    × (h p ≡ some (node c.chan c.sock q))
    × (held p cs ≡ false)
    × IsChain h q cs

abbrev pub Holds : Store → List Conn → Type 0
Holds s cs = IsChain s.heap s.head cs

pub put-same : (h : Heap) (p : Ptr) (cell : Option Node) → put h p cell p ≡ cell
unfolding put
put-same h p cell = rw (==-refl p) refl

pub put-other :
    (h : Heap) (p a : Ptr) (cell : Option Node) → (a == p) ≡ false → put h p cell a ≡ h a
unfolding put
put-other h p a cell e = rw e refl

-- A chain is not changed by a write outside its nodes.
pub IsChain-put :
    (h : Heap) (p a : Ptr) (cell : Option Node) (cs : List Conn)
    → held a cs ≡ false
    → IsChain h p cs
    → IsChain (put h a cell) p cs
unfolding put
IsChain-put h p a cell [] out e = e
IsChain-put h p a cell (c ∷ cs) out (q, at, pos, here, fresh, rest) =
    (q, at, pos, ground arith, fresh, IsChain-put h q a cell cs (ground arith) rest)
