-- ===== src/Tests/Screen.antt =====
-- The X11 forwarding of example/x11.c.
use Prim.Native.String.{String}
use cloudssh.Base.{List, [], ◌∷◌}

abbrev destination : List String
destination = "10.0.0.1" ∷ "user" ∷ "secret" ∷ []
