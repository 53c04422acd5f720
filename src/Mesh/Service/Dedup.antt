-- ===== src/Mesh/Service/Dedup.antt =====
-- MeshService::is_duplicate of src/mesh/mesh_service.cpp.
use fmesh_cli.Common.{
  ℕ, suc, ◌+◌, ◌*◌, ◌^◌, ◌≤◌, ◌<◌, ◌≡◌, ◌≢◌, refl, Bool, true, false, ◌||◌, List, [], ◌∷◌, ◌++◌,
  length, drop, ltb, ◌==◌, if◌then◌else◌, arith, length-append, Bool-cases, inl, inr, ◌⊎◌, subst,
  length-drop, ltb→lt,
}

-- kDedupMax
abbrev pub dedup_max : ℕ
dedup_max = 500

-- `(uint64_t(from_node) << 32) | packet_id`, the packet's id having 32 bits.
abbrev pub key_of : ℕ → ℕ → ℕ
key_of from_node packet_id = from_node * 2 ^ 32 + packet_id

unfoldable pub seen_before : ℕ → List ℕ → Bool
seen_before key [] = false
seen_before key (k ∷ ks) = k == key || seen_before key ks

-- `seen_messages_` afterwards, and the result.
unfoldable pub is_duplicate : ℕ → ℕ → List ℕ → List ℕ × Bool
unfolding seen_before
is_duplicate from_node packet_id seen =
    if packet_id == 0
    then (seen, false)
    else let key = key_of from_node packet_id in
      if seen_before key seen
      then (seen, true)
      else (let longer = seen ++ (key ∷ []) in
          (if ltb dedup_max (length longer) then drop 1 longer else longer, false))

-- What is seen after packets from nodes.
unfoldable pub see_all : List (ℕ × ℕ) → List ℕ → List ℕ
unfolding is_duplicate
see_all [] seen = seen
see_all (p ∷ ps) seen = see_all ps (is_duplicate p.0 p.1 seen).0

-- The key is there with at most so many behind it.
Within : ℕ → ℕ → List ℕ → Type 0
Within key n [] = ⊥
Within key n (k ∷ ks) = ((k ≡ key) × (length ks ≤ n)) ⊎ Within key n ks

Within-seen : (key n : ℕ) (ks : List ℕ) → Within key n ks → seen_before key ks ≡ true
unfolding seen_before Within
Within-seen key n [] w = elim w [ ]
Within-seen key n (k ∷ ks) (inl (e, h)) = ground arith
Within-seen key n (k ∷ ks) (inr w) = ground (arith, Within-seen key n ks w)

Within-more : (key n : ℕ) (ks : List ℕ) → Within key n ks → Within key (suc n) ks
unfolding Within
Within-more key n [] w = elim w [ ]
Within-more key n (k ∷ ks) (inl (e, h)) = inl (e, omega arith)
Within-more key n (k ∷ ks) (inr w) = inr (Within-more key n ks w)

Within-append : (key n k : ℕ) (ks : List ℕ) → Within key n ks → Within key (suc n) (ks ++ (k ∷ []))
unfolding Within
Within-append key n k [] w = elim w [ ]
Within-append key n k (x ∷ ks) (inl (e, h)) = inl (e, omega (arith, length-append ks (k ∷ [])))
Within-append key n k (x ∷ ks) (inr w) = inr (Within-append key n k ks w)

-- The oldest key goes only when more keys stand behind it.
Within-drop :
    (key n : ℕ) (ks : List ℕ)
    → Within key n ks
    → n < dedup_max
    → dedup_max < length ks
    → Within key n (drop 1 ks)
unfolding Within
Within-drop key n [] w hn hl = elim w [ ]
Within-drop key n (k ∷ ks) (inl (e, h)) hn hl = absurd (omega arith)
Within-drop key n (k ∷ ks) (inr w) hn hl = w

Within-last : (key : ℕ) (ks : List ℕ) → Within key 0 (ks ++ (key ∷ []))
unfolding Within
Within-last key [] = inl (refl, omega arith)
Within-last key (k ∷ ks) = inr (Within-last key ks)

pushed : List ℕ → List ℕ
pushed longer = if ltb dedup_max (length longer) then drop 1 longer else longer

Within-pushed :
    (key n : ℕ) (longer : List ℕ)
    → Within key n longer
    → n < dedup_max
    → Within key n (pushed longer)
unfolding pushed
Within-pushed key n longer w h = elim (Bool-cases (ltb dedup_max (length longer))) [
  | inl e ↦ rw e (Within-drop key n longer w h (ltb→lt dedup_max (length longer) e))
  | inr e ↦ rw e w
]

-- One more packet stands behind the key at most.
Within-is_duplicate :
    (key n from_node packet_id : ℕ) (seen : List ℕ)
    → Within key n seen
    → suc n < dedup_max
    → Within key (suc n) (is_duplicate from_node packet_id seen).0
unfolding is_duplicate pushed
Within-is_duplicate key n from_node packet_id seen w h = elim (Bool-cases (packet_id == 0)) [
  | inl e ↦ rw (is_duplicate, e) (Within-more key n seen w)
  | inr e ↦ elim (Bool-cases (seen_before (key_of from_node packet_id) seen)) [
    | inl b ↦ rw (is_duplicate, e, b) (Within-more key n seen w)
    | inr b ↦
        rw (is_duplicate, e, b)
          (Within-pushed key (suc n) (seen ++ (key_of from_node packet_id ∷ []))
            (Within-append key n (key_of from_node packet_id) seen w) h)
  ]
]

Within-see_all :
    (ps : List (ℕ × ℕ)) (key n : ℕ) (seen : List ℕ)
    → Within key n seen
    → n + length ps < dedup_max
    → Within key (n + length ps) (see_all ps seen)
unfolding see_all
Within-see_all [] key n seen w h = subst (λ m. Within key m seen) (omega arith) w
Within-see_all (p ∷ ps) key n seen w h =
    subst (λ m. Within key m (see_all ps (is_duplicate p.0 p.1 seen).0)) (omega arith)
      (Within-see_all ps key (suc n) (is_duplicate p.0 p.1 seen).0
        (Within-is_duplicate key n p.0 p.1 seen w (omega (arith, h))) (omega (arith, h)))

-- Every entry stands in the window of so many.
is_duplicate_len :
    (from_node packet_id : ℕ) (seen : List ℕ)
    → length seen ≤ dedup_max
    → length (is_duplicate from_node packet_id seen).0 ≤ dedup_max
unfolding is_duplicate
is_duplicate_len from_node packet_id seen h = ground (
  arith,
  length-append seen (key_of from_node packet_id ∷ []),
  length-drop 1 (seen ++ (key_of from_node packet_id ∷ [])),
)

is_duplicate_fresh :
    (from_node packet_id : ℕ) (seen : List ℕ)
    → packet_id ≢ 0
    → seen_before (key_of from_node packet_id) seen ≡ false
    → Within (key_of from_node packet_id) 0 (is_duplicate from_node packet_id seen).0
unfolding is_duplicate pushed
is_duplicate_fresh from_node packet_id seen h e =
    rw (is_duplicate, not_zero, e)
      (Within-pushed (key_of from_node packet_id) 0 (seen ++ (key_of from_node packet_id ∷ []))
        (Within-last (key_of from_node packet_id) seen) (omega arith))
  where
    not_zero : (packet_id == 0) ≡ false
    not_zero = ground arith

Within-duplicate :
    (from_node packet_id n : ℕ) (seen : List ℕ)
    → packet_id ≢ 0
    → Within (key_of from_node packet_id) n seen
    → (is_duplicate from_node packet_id seen).1 ≡ true
unfolding is_duplicate
Within-duplicate from_node packet_id n seen h w =
    ground (arith, Within-seen (key_of from_node packet_id) n seen w)

-- A packet with an id that is new to the window is no duplicate when it comes; and when it comes
-- again, with at most 498 other packets in between, it is one.
pub is_duplicate_again :
    (from_node packet_id : ℕ) (between : List (ℕ × ℕ)) (seen : List ℕ)
    → packet_id ≢ 0
    → seen_before (key_of from_node packet_id) seen ≡ false
    → length between < 499
    → let (seen', first) = is_duplicate from_node packet_id seen in
      (first ≡ false) × ((is_duplicate from_node packet_id (see_all between seen')).1 ≡ true)
unfolding is_duplicate
is_duplicate_again from_node packet_id between seen h e hb = (
  ground arith,
  Within-duplicate from_node packet_id (0 + length between)
      (see_all between (is_duplicate from_node packet_id seen).0) h
      (Within-see_all between (key_of from_node packet_id) 0
        (is_duplicate from_node packet_id seen).0 (is_duplicate_fresh from_node packet_id seen h e)
        (omega (arith, hb))),
)

-- The window never holds more than 500 packets.
see_all-le :
    (ps : List (ℕ × ℕ)) (seen : List ℕ)
    → length seen ≤ dedup_max
    → length (see_all ps seen) ≤ dedup_max
unfolding see_all
see_all-le [] seen h = h
see_all-le (p ∷ ps) seen h =
    see_all-le ps (is_duplicate p.0 p.1 seen).0 (is_duplicate_len p.0 p.1 seen h)
