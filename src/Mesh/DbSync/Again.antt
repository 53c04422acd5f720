-- ===== src/Mesh/DbSync/Again.antt =====
-- What src/mesh/db_sync.cpp makes of messages that come a second time, as they do when peers forward
-- them to each other.
use fmesh_cli.Common.{
  ℕ, ◌≡◌, refl, ◌∙◌, true, false, ◌&&◌, ◌||◌, not, List, [], ◌∷◌, Option, Bytes, ◌==◌, arith,
  Bool-cases, inl, inr, ==_refl,
}
use fmesh_cli.Mesh.NodeDb.{NodeDb}
use fmesh_cli.Mesh.DbSync.{SyncMessage, Store, take_message, take_messages}

-- Every message has the number of its packet.
abbrev pub HaveIds : List SyncMessage → Type 0
HaveIds [] = Unit {0}
HaveIds (m ∷ ms) = ((m.packet_id == 0) ≡ false) × HaveIds ms

module _ {S : Type 0} (store : Store S) where
  -- A packet is found in a database exactly if it was, or if its message was just stored.
  abbrev pub Remembers : Type 0
  Remembers =
      (k : ℕ) (m : SyncMessage) (s : S)
      → store.find_by_packet_id k (store.insert_message m s)
        ≡ (k == m.packet_id || store.find_by_packet_id k s)

  abbrev AllKnown : List SyncMessage → S → Type 0
  AllKnown [] s = Unit {0}
  AllKnown (m ∷ ms) s = (store.find_by_packet_id m.packet_id s ≡ true) × AllKnown ms s

module _ {S : Type 0} (store : Store S) (device_ids : List Bytes) (db_for : Bytes → Option NodeDb)
    (remembers : Remembers store) where
  take_message_keeps :
      (k : ℕ) (m : SyncMessage) (s : S)
      → store.find_by_packet_id k s ≡ true
      → store.find_by_packet_id k (take_message store device_ids db_for m s).0 ≡ true
  unfolding take_message
  take_message_keeps k m s h =
      elim (Bool-cases (not (m.packet_id == 0) && store.find_by_packet_id m.packet_id s)) [
        | inl e ↦ rw (take_message, e) h
        | inr e ↦ rw (take_message, e) (remembers k m s ∙ ground (arith, h))
      ]

  take_message_known :
      (m : SyncMessage) (s : S)
      → (m.packet_id == 0) ≡ false
      → store.find_by_packet_id m.packet_id (take_message store device_ids db_for m s).0 ≡ true
  unfolding take_message
  take_message_known m s id = elim (Bool-cases (store.find_by_packet_id m.packet_id s)) [
    | inl e ↦ rw (take_message, id, e) e
    | inr e ↦
        rw (take_message, id, e) (remembers m.packet_id m s ∙ ground (arith, ==_refl m.packet_id))
  ]

  take_messages_keeps :
      (k : ℕ) (ms : List SyncMessage) (s : S)
      → store.find_by_packet_id k s ≡ true
      → store.find_by_packet_id k (take_messages store device_ids db_for ms s).0 ≡ true
  unfolding take_messages
  take_messages_keeps k [] s h = h
  take_messages_keeps k (m ∷ ms) s h =
      take_messages_keeps k ms (take_message store device_ids db_for m s).0
        (take_message_keeps k m s h)

  take_messages-AllKnown :
      (ms : List SyncMessage) (s : S)
      → HaveIds ms
      → AllKnown store ms (take_messages store device_ids db_for ms s).0
  unfolding take_messages
  take_messages-AllKnown [] s ids = tt
  take_messages-AllKnown (m ∷ ms) s ids = (
    take_messages_keeps m.packet_id ms (take_message store device_ids db_for m s).0
        (take_message_known m s ids.0),
    take_messages-AllKnown ms (take_message store device_ids db_for m s).0 ids.1,
  )

  passed_over :
      (m : SyncMessage) (s : S)
      → (m.packet_id == 0) ≡ false
      → store.find_by_packet_id m.packet_id s ≡ true
      → take_message store device_ids db_for m s ≡ (s, [])
  unfolding take_message
  passed_over m s id e = rw (take_message, id, e) refl

  nothing_new :
      (ms : List SyncMessage) (s : S)
      → HaveIds ms
      → AllKnown store ms s
      → take_messages store device_ids db_for ms s ≡ (s, [])
  unfolding take_messages
  nothing_new [] s ids known = refl
  nothing_new (m ∷ ms) s ids known =
      rw (take_messages, passed_over m s ids.0 known.0, nothing_new ms s ids.1 known.1) refl

  -- Where the database finds a packet exactly if its message was stored: messages that have packet
  -- numbers and are taken a second time change nothing, and none is forwarded or shown again.
  pub take_messages_twice :
      (ms : List SyncMessage) (s : S)
      → HaveIds ms
      → take_messages store device_ids db_for ms (take_messages store device_ids db_for ms s).0
        ≡ ((take_messages store device_ids db_for ms s).0, [])
  take_messages_twice ms s ids =
      nothing_new ms (take_messages store device_ids db_for ms s).0 ids
        (take_messages-AllKnown ms s ids)
