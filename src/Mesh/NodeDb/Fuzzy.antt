-- ===== src/Mesh/NodeDb/Fuzzy.antt =====
-- The best match by name.
use fmesh_cli.Common.{
  ℕ, zero, suc, ◌≤◌, ◌≡◌, List, [], ◌∷◌, Option, none, some, Bytes, ltb, arith, get_elem?,
  Bool-cases, inl, inr, ltb→lt, ltb_false→le,
}
use fmesh_cli.Mesh.NodeDb.{Node, NodeDb, all, to_lower, score, best_of, find_by_name}

abbrev pub score_of : Bytes → Option Node → ℕ
score_of q none = 0
score_of q (some n) = score q n

best_of_grows :
    (q : Bytes) (ns : List Node) (best : Option Node)
    → score_of q best ≤ score_of q (best_of q ns best (score_of q best))
unfolding best_of
best_of_grows q [] best = omega arith
best_of_grows q (n ∷ ns) best = elim (Bool-cases (ltb (score_of q best) (score q n))) [
  | inl e ↦
      rw (best_of, e)
        (omega (arith, ltb→lt (score_of q best) (score q n) e, best_of_grows q ns (some n)))
  | inr e ↦ rw (best_of, e) (best_of_grows q ns best)
]

best_of_most :
    (q : Bytes) (ns : List Node) (best : Option Node) (i : ℕ) (m : Node)
    → get_elem? ns i ≡ some m
    → score q m ≤ score_of q (best_of q ns best (score_of q best))
unfolding best_of
best_of_most q [] best i m h = cc
best_of_most q (n ∷ ns) best zero m h = elim (Bool-cases (ltb (score_of q best) (score q n))) [
  | inl e ↦ rw (best_of, e) (ground (arith, best_of_grows q ns (some n)))
  | inr e ↦
      rw (best_of, e)
        (ground (arith, best_of_grows q ns best, ltb_false→le (score_of q best) (score q n) e))
]
best_of_most q (n ∷ ns) best (suc i) m h = elim (Bool-cases (ltb (score_of q best) (score q n))) [
  | inl e ↦ rw (best_of, e) (best_of_most q ns (some n) i m h)
  | inr e ↦ rw (best_of, e) (best_of_most q ns best i m h)
]

-- No node matches a query better, by long or short name, than the one that is found; if none is
-- found, none matches at all.
pub find_by_name_best :
    (query : Bytes) (db : NodeDb) (i : ℕ) (m : Node)
    → get_elem? (all db) i ≡ some m
    → score (to_lower query) m ≤ score_of (to_lower query) (find_by_name query db)
unfolding find_by_name
find_by_name_best query db i m h = best_of_most (to_lower query) (all db) none i m h
