-- ===== src/Mesh/NodeDb/Latest.antt =====
-- What NodeDb::upsert_node of src/mesh/node_db.cpp keeps of several reports about a node.
use fmesh_cli.Common.{ℕ, List, [], ◌∷◌, Option, none, some, if◌then◌else◌, ◌==◌}
use fmesh_cli.Mesh.NodeDb.{Node, NodeDb, upsert_node}
use fmesh_cli.Mesh.NodeDb.Fields.{Field, Value, said}

unfoldable pub stored : Field → Option Node → Option Value
unfolding said
stored field none = none
stored field (some n) = said field n

-- The last of the reports about a node that says something of a field; without one, what was known.
unfoldable pub latest : Field → ℕ → List Node → Option Value → Option Value
unfolding said
latest field num [] known = known
latest field num (n ∷ ns) known = latest field num ns (
    if n.node_num == num
    then (elim (said field n) [ some value ↦ some value | none ↦ known ])
    else known)

unfoldable pub upsert_all : List Node → NodeDb → NodeDb
unfolding upsert_node
upsert_all [] db = db
upsert_all (n ∷ ns) db = upsert_all ns (upsert_node n db)
