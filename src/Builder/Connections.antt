-- ===== src/Builder/Connections.antt =====
-- The connection names of the components that are hosted by servers.
use rpp_cpp.Base.{◌≡◌, false, String, List, [], ◌∷◌, ◌++◌}
use rpp_cpp.Base.Dict.{Dict}
use rpp_cpp.Python.{member}
use rpp_cpp.Builder.{ComponentNode}
use rpp_cpp.Builder.Construction.{connection_of}

-- No connection of the nodes is in `names`, and no two of them are the same.
abbrev pub Fresh : List String → List ComponentNode → Type 0
Fresh names [] = Unit
Fresh names (n ∷ nodes) =
    (member (connection_of n) names ≡ false) × Fresh (connection_of n ∷ names) nodes

abbrev pub all_nodes : Dict (List ComponentNode) → List ComponentNode
all_nodes [] = []
all_nodes ((language, group) ∷ groups) = group ++ all_nodes groups
