-- ===== src/Tests/Lists.antt =====
-- The list of X11 connections, with up to three nodes.
use cloudssh.Base.{◌≡◌, refl, none, some, [], ◌∷◌, arith}
use cloudssh.X11.{node, Store, put, done, spin, remove_node, add_connection}
use cloudssh.X11.Chain.{Conn, Holds}
use cloudssh.X11.Append.{conn, add_connection-appends}
use cloudssh.X11.Remove.{remove_node-removes, remove_node-dangles, remove_node-spins}

abbrev two_nodes : Store
two_nodes = record {
  heap = put (put (λ p. none) 5 (some (node 51 52 0))) 3 (some (node 31 32 5));
  head = 3;
}

abbrev three_nodes : Store
three_nodes = record {
  heap =
      put (put (put (λ p. none) 7 (some (node 71 72 0))) 5 (some (node 51 52 7))) 3
        (some (node 31 32 5));
  head = 3;
}

abbrev first : Conn
first = conn 3 31 32

abbrev second : Conn
second = conn 5 51 52

abbrev third : Conn
third = conn 7 71 72

two-Holds : Holds two_nodes (first ∷ second ∷ [])
unfolding put
two-Holds = (5, refl, omega arith, refl, refl, (0, refl, omega arith, refl, refl, refl))

three-Holds : Holds three_nodes (first ∷ second ∷ third ∷ [])
unfolding put
three-Holds = (
  5,
  refl,
  omega arith,
  refl,
  refl,
  (7, refl, omega arith, refl, refl, (0, refl, omega arith, refl, refl, refl)),
)

add_connection-appends_example :
    (s' : Store) × (add_connection 2 two_nodes 7 71 72 ≡ done s')
    × Holds s' (first ∷ second ∷ conn 7 71 72 ∷ [])
add_connection-appends_example =
    add_connection-appends 2 two_nodes (first ∷ second ∷ []) 7 71 72 two-Holds (omega arith) refl
      (omega arith)

remove_node-removes_example :
    (s' : Store) × (remove_node 2 two_nodes 3 ≡ done s')
    × Holds s' (second ∷ [])
    × (s'.heap 3 ≡ none)
remove_node-removes_example = remove_node-removes 2 two_nodes first (second ∷ []) two-Holds

remove_node-dangles_example :
    (s' : Store) × (remove_node 1 three_nodes 5 ≡ done s')
    × (s'.head ≡ 3)
    × (s'.heap 3 ≡ some (node 31 32 7))
    × (s'.heap 7 ≡ none)
remove_node-dangles_example = remove_node-dangles 0 three_nodes first second third [] three-Holds

remove_node-spins_example : remove_node 9 three_nodes 7 ≡ spin
remove_node-spins_example =
    remove_node-spins 9 three_nodes first second (third ∷ []) 7 three-Holds refl
