-- ===== src/Mesh/Service/PacketId.antt =====
-- MeshService::next_packet_id of src/mesh/mesh_service.cpp. What the random generator returns is a
-- parameter.
use fmesh_cli.Common.{ℕ, ◌+◌, ◌*◌, ◌%◌, ◌^◌, ◌≤◌, ◌<◌, ◌≡◌, ◌≢◌, ap, List, [], ◌∷◌, length, arith}

-- The low 10 bits count on, the 22 above them are random. The two have no bit in common, so that
-- their bitwise or is the sum.
unfoldable pub next_packet_id : ℕ → ℕ → ℕ
next_packet_id random packet_id =
    let next = (packet_id + 1) % 2 ^ 32 % 2 ^ 10 in
    let random_part = random % 2 ^ 22 * 2 ^ 10 % 2 ^ 32 in next + random_part

-- The id after several calls, from what the generator returned in each.
unfoldable pub ids_after : List ℕ → ℕ → ℕ
unfolding next_packet_id
ids_after [] packet_id = packet_id
ids_after (r ∷ rs) packet_id = ids_after rs (next_packet_id r packet_id)

pub next_packet_id-low :
    (random packet_id : ℕ)
    → (next_packet_id random packet_id < 2 ^ 32)
      × (next_packet_id random packet_id % 1024 ≡ (packet_id + 1) % 1024)
unfolding next_packet_id
next_packet_id-low random packet_id = (omega arith, omega arith)

ids_after-low :
    (randoms : List ℕ) (packet_id : ℕ)
    → ids_after randoms packet_id % 1024 ≡ (packet_id + length randoms) % 1024
unfolding ids_after
ids_after-low [] packet_id = omega arith
ids_after-low (r ∷ rs) packet_id =
    omega (arith, ids_after-low rs (next_packet_id r packet_id), (next_packet_id-low r packet_id).1)

-- Whatever the random generator returns: of 1024 packet ids in a row no two are equal.
pub packet_ids_differ :
    (randoms : List ℕ) (packet_id : ℕ)
    → 1 ≤ length randoms
    → length randoms < 1024
    → ids_after randoms packet_id ≢ packet_id
packet_ids_differ randoms packet_id h hs e =
    absurd (omega (arith, ids_after-low randoms packet_id, ap (λ m. m % 1024) e))
