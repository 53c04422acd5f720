-- ===== src/Mesh/NodeDb/Laws.antt =====
-- Storing what is heard of the nodes.
use fmesh_cli.Common.{
  ℕ, ◌≡◌, refl, ◌∙◌, List, [], ◌∷◌, some, arith, put, lookup, AscendFrom, put-AscendFrom,
  Option-cases, inl, inr,
}
use fmesh_cli.App.Config.Atoi.{ℤ}
use fmesh_cli.Mesh.NodeDb.{
  Node, Channel, NodeDb, clear, fresh_node, merge, with_id, upsert_node, update_position,
  upsert_channel, set_my_node_num,
}

-- Every node stands under its own number.
abbrev pub AllKeyed : List (ℕ × Node) → Type 0
AllKeyed [] = Unit {0}
AllKeyed (e ∷ m) = (e.1.node_num ≡ e.0) × AllKeyed m

put-AllKeyed :
    (n : Node) (key : ℕ) (m : List (ℕ × Node))
    → n.node_num ≡ key
    → AllKeyed m
    → AllKeyed (put key n m)
unfolding put
put-AllKeyed n key [] h k = (h, tt)
put-AllKeyed n key (e ∷ m) h k = ground (arith, put-AllKeyed n key m)

lookup-AllKeyed :
    (key : ℕ) (m : List (ℕ × Node)) (n : Node)
    → AllKeyed m
    → lookup key m ≡ some n
    → n.node_num ≡ key
unfolding lookup
lookup-AllKeyed key [] n k h = cc
lookup-AllKeyed key (e ∷ m) n k h = ground (arith, lookup-AllKeyed key m n)

-- Nodes and channels in the order of their numbers, once each, the nodes under their own.
pub record Ordered (db : NodeDb) : Type 0 where
  pub nodes_in : AscendFrom 0 db.nodes
  pub channels_in : AscendFrom 0 db.channels
  pub keyed : AllKeyed db.nodes

pub data Op : Type 0 where
  reset : Op
  node : Node → Op
  position : ℕ → ℕ → ℕ → ℤ → Op
  chan : Channel → Op
  me : ℕ → Op

unfoldable pub run : List Op → NodeDb → NodeDb
run [] db = db
run (reset ∷ os) db = run os (clear db)
run (node n ∷ os) db = run os (upsert_node n db)
run (position num lat lon alt ∷ os) db = run os (update_position num lat lon alt db)
run (chan c ∷ os) db = run os (upsert_channel c db)
run (me n ∷ os) db = run os (set_my_node_num n db)

stored-Ordered :
    (db : NodeDb) (n : Node) (num : ℕ)
    → Ordered db
    → n.node_num ≡ num
    → Ordered (record db { nodes = put num n db.nodes })
stored-Ordered db n num v h = record {
  nodes_in = put-AscendFrom 0 num n db.nodes (omega arith) v.nodes_in;
  channels_in = v.channels_in;
  keyed = put-AllKeyed n num db.nodes h v.keyed;
}

with_id-node_num : (n : Node) → (with_id n).node_num ≡ n.node_num
unfolding with_id
with_id-node_num n = ground arith

merge-node_num : (n stored : Node) → (merge n stored).node_num ≡ stored.node_num
unfolding merge
merge-node_num n stored = refl

upsert_node-Ordered : (n : Node) (db : NodeDb) → Ordered db → Ordered (upsert_node n db)
unfolding upsert_node
upsert_node-Ordered n db v = elim (Option-cases (lookup n.node_num db.nodes)) [
  | inl e ↦ rw (upsert_node, e) (stored-Ordered db (with_id n) n.node_num v (with_id-node_num n))
  | inr (stored, e) ↦
      rw (upsert_node, e)
        (stored-Ordered db (merge (with_id n) stored) n.node_num v (
          merge-node_num (with_id n) stored ∙ lookup-AllKeyed n.node_num db.nodes stored v.keyed e))
]

update_position-Ordered :
    (num lat lon : ℕ) (alt : ℤ) (db : NodeDb)
    → Ordered db
    → Ordered (update_position num lat lon alt db)
unfolding update_position fresh_node
update_position-Ordered num lat lon alt db v = elim (Option-cases (lookup num db.nodes)) [
  | inl e ↦ rw (update_position, e) (stored-Ordered db _ num v refl)
  | inr (stored, e) ↦
      rw (update_position, e)
        (stored-Ordered db
          (record stored { latitude = some lat; longitude = some lon; altitude = some alt }) num v
          (lookup-AllKeyed num db.nodes stored v.keyed e))
]

run-Ordered' : (os : List Op) (db : NodeDb) → Ordered db → Ordered (run os db)
unfolding run clear upsert_channel set_my_node_num
run-Ordered' [] db v = v
run-Ordered' (reset ∷ os) db v =
    run-Ordered' os (clear db) (record { nodes_in = tt; channels_in = tt; keyed = tt })
run-Ordered' (node n ∷ os) db v = run-Ordered' os (upsert_node n db) (upsert_node-Ordered n db v)
run-Ordered' (position num lat lon alt ∷ os) db v =
    run-Ordered' os (update_position num lat lon alt db)
      (update_position-Ordered num lat lon alt db v)
run-Ordered' (chan c ∷ os) db v = run-Ordered' os (upsert_channel c db) (record {
  nodes_in = v.nodes_in;
  channels_in = put-AscendFrom 0 c.index c db.channels (omega arith) v.channels_in;
  keyed = v.keyed;
})
run-Ordered' (me n ∷ os) db v =
    run-Ordered' os (set_my_node_num n db)
      (record { nodes_in = v.nodes_in; channels_in = v.channels_in; keyed = v.keyed })

-- Whatever is stored, in any order: the nodes and the channels are listed by ascending number, none
-- of them twice, and each node under its own number.
pub run-Ordered : (os : List Op) (db : NodeDb) → Ordered (run os (clear db))
unfolding clear
run-Ordered os db =
    run-Ordered' os (clear db) (record { nodes_in = tt; channels_in = tt; keyed = tt })
