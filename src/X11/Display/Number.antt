-- ===== src/X11/Display/Number.antt =====
-- The display number in DISPLAY.
use cloudssh.Base.{ℕ, ◌==◌, Bool, false, ◌||◌, List, [], ◌∷◌}

abbrev pub contains : ℕ → List ℕ → Bool
contains c [] = false
contains c (d ∷ s) = d == c || contains c s
