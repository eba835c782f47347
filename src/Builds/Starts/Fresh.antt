-- ===== src/Builds/Starts/Fresh.antt =====
-- queries/builds.sql, `start`: what is taken of the steps of the sessions.
use circus.Common.{ℕ, ◌≡◌, false, List, [], ◌∷◌, String, any}
use circus.Builds.{Table, Statement, start_build, runs}
use circus.Builds.Proper.{IsProper}
use circus.Builds.Starts.{Phase, snapped, World, Event, attempt, other, step}

-- When a start tries its locks, no build of its derivation runs if its snapshot had none running: no other
-- start of the derivation has committed in between.
abbrev pub IsFresh : Phase → Table → Type 0
IsFresh (snapped id drv seen) t = any (runs drv) seen ≡ false → any (runs drv) t ≡ false
IsFresh _ t = Unit

-- The other statements are the updates that start no build.
abbrev pub IsOther : Statement → Type 0
IsOther (start_build now lock unlocked seen id) = ⊥
IsOther _ = Unit

abbrev pub Allowed : Event → World → Type 0
Allowed (attempt i unlocked) w = IsFresh (w.sessions i) w.table
Allowed (other s) w = IsProper s w.table × IsOther s
Allowed _ w = Unit

unfoldable pub AllAllowed : (String → ℕ) → List Event → World → Type 0
unfolding step
AllAllowed hash [] w = Unit
AllAllowed hash (e ∷ events) w = Allowed e w × AllAllowed hash events (step hash e w)
