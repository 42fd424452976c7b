-- ===== src/Tests/Arenas.antt =====
-- Arenas of src/containers/arena.hpp at concrete inputs.
use indecorous.Base.{[], ◌∷◌}
use indecorous.Containers.Arena.{Arena, create, get, release, Reach, start, gets, releases}

-- Two objects are got and one is released, with room for one free node.
abbrev used : Arena
used = record { max_free_nodes = 1; allocated = 2; free_nodes = 8 ∷ [] }

used_reached : Reach 1 1 used
unfolding create get release
used_reached = releases 8 (gets 9 (gets 8 start))
