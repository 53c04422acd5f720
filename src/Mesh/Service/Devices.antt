-- ===== src/Mesh/Service/Devices.antt =====
-- The lookups of devices in src/mesh/mesh_service.cpp. The maps are lists in the order of their keys;
-- the pointers in them are never null. The saved configuration and the stored nodes of the database
-- are parameters.
use fmesh_cli.Common.{
  ℕ, zero, suc, Bool, false, ◌&&◌, ◌||◌, not, List, [], ◌∷◌, ◌++◌, Option, none, some, Bytes, codes,
  ◌==◌, ◌=?◌, if◌then◌else◌, lookup_key,
}
use fmesh_cli.App.Config.Spec.{BleDeviceSpec, fresh_spec, is_empty}
use fmesh_cli.Mesh.NodeDb.{Node, NodeDb, get}
use fmesh_cli.Tui.Window.{is_prefix}
use fmesh_cli.Mesh.Service.Virtual.{VirtualDevice, virtual_stream_for, virtual_original_for}
use fmesh_cli.Mesh.Service.Identifier.{
  DeviceRuntime, normalize_device_identifier, matches_identifier,
}

pub record Devices : Type 0 where
  pub devices : List (Bytes × DeviceRuntime)
  pub offline_dbs : List (Bytes × NodeDb)
  pub offline_device_names : List (Bytes × Bytes)
  pub virtual_devices : List VirtualDevice

-- The first device that answers to a name.
unfoldable pub first_match : Bytes → List (Bytes × DeviceRuntime) → Option DeviceRuntime
unfolding matches_identifier
first_match id [] = none
first_match id (e ∷ devices) =
    if matches_identifier id e.1 then some e.1 else first_match id devices

-- The first device that answers to a name or, if it is not empty, to its normal form.
unfoldable pub first_match_either :
    Bytes → Bytes → List (Bytes × DeviceRuntime) → Option DeviceRuntime
unfolding matches_identifier
first_match_either id norm [] = none
first_match_either id norm (e ∷ devices) =
    if matches_identifier id e.1 || not (is_empty norm) && matches_identifier norm e.1
    then some e.1
    else first_match_either id norm devices

-- The entry of the normal form, where that is another name.
unfoldable pub lookup_normalized {ℓ} : {A : Type ℓ} → Bytes → List (Bytes × A) → Option A
unfolding normalize_device_identifier lookup_key
lookup_normalized id m =
    let norm = normalize_device_identifier id in
    if not (is_empty norm) && not (norm =? id) then lookup_key norm m else none

unfoldable pub find_device_runtime : Bytes → Devices → Option DeviceRuntime
unfolding lookup_key lookup_normalized first_match_either
find_device_runtime [] s = elim s.devices [ [] ↦ none | e ∷ devices ↦ some e.1 ]
find_device_runtime (c ∷ cs) s = elim (lookup_key (c ∷ cs) s.devices) [
  | some rt ↦ some rt
  | none ↦ elim (lookup_normalized (c ∷ cs) s.devices) [
    | some rt ↦ some rt
    | none ↦ first_match_either (c ∷ cs) (normalize_device_identifier (c ∷ cs)) s.devices
  ]
]

-- The normal form, or the name itself where that is empty.
unfoldable pub normal_or_same : Bytes → Bytes
unfolding normalize_device_identifier
normal_or_same id = let norm = normalize_device_identifier id in if is_empty norm then id else norm

unfoldable pub canonical_id_for : Bytes → Devices → Bytes
unfolding find_device_runtime normal_or_same
canonical_id_for id s = elim (find_device_runtime id s) [
  | none ↦ normal_or_same id
  | some rt ↦
      (if not (is_empty rt.id)
        then rt.id
        else if not (is_empty rt.spec.address)
        then normalize_device_identifier rt.spec.address
        else normal_or_same id)
]

unfoldable pub keys_of {ℓ} : {A : Type ℓ} → List (Bytes × A) → List Bytes
keys_of [] = []
keys_of (e ∷ m) = e.0 ∷ keys_of m

-- Some live device is the one of the offline database.
unfoldable pub is_covered : Bytes → List (Bytes × DeviceRuntime) → Bool
unfolding matches_identifier normalize_device_identifier
is_covered id [] = false
is_covered id (e ∷ devices) =
    matches_identifier id e.1
    || normalize_device_identifier id =? normalize_device_identifier e.1.id
    || is_covered id devices

unfoldable pub uncovered : List (Bytes × DeviceRuntime) → List Bytes → List Bytes
unfolding is_covered
uncovered devices [] = []
uncovered devices (id ∷ ids) =
    let rest = uncovered devices ids in
    if is_empty id || is_covered id devices then rest else id ∷ rest

unfoldable pub virtual_ids : List VirtualDevice → List Bytes
virtual_ids [] = []
virtual_ids (d ∷ ds) = d.id ∷ virtual_ids ds

unfoldable pub device_ids : Devices → List Bytes
unfolding keys_of uncovered virtual_ids
device_ids s =
    keys_of s.devices
    ++ (uncovered s.devices (keys_of s.offline_dbs) ++ virtual_ids s.virtual_devices)

-- The database of the only device there is.
unfoldable pub only_db : List (Bytes × DeviceRuntime) → List (Bytes × NodeDb) → Option NodeDb
only_db [] [] = none
only_db [] (e ∷ []) = some e.1
only_db [] (e ∷ f ∷ dbs) = none
only_db (e ∷ []) dbs = some e.1.db
only_db (e ∷ f ∷ devices) dbs = none

unfoldable pub db_of : Bytes → Devices → Option NodeDb
unfolding lookup_key first_match lookup_normalized only_db
db_of [] s = only_db s.devices s.offline_dbs
db_of (c ∷ cs) s = elim (lookup_key (c ∷ cs) s.devices) [
  | some rt ↦ some rt.db
  | none ↦ elim (first_match (c ∷ cs) s.devices) [
    | some rt ↦ some rt.db
    | none ↦ elim (lookup_key (c ∷ cs) s.offline_dbs) [
      | some db ↦ some db
      | none ↦ elim (lookup_normalized (c ∷ cs) s.offline_dbs) [
        | some db ↦ some db
        | none ↦ only_db s.devices s.offline_dbs
      ]
    ]
  ]
]

unfoldable pub is_virtual : Bytes → Bool
unfolding is_prefix
is_virtual id = is_prefix (codes "virtual:") id

-- A virtual device has the database of its stream, which is looked up in the same way; the fuel
-- bounds the virtual devices on the way.
unfoldable pub db_for : ℕ → Bytes → Devices → Option NodeDb
unfolding is_virtual virtual_stream_for db_of
db_for zero id s = none
db_for (suc fuel) id s =
    let sid = virtual_stream_for id s.virtual_devices in
    let rest = db_for fuel sid s in if is_virtual id && not (is_empty sid) then rest else db_of id s

unfoldable pub has_name : Node → Bool
has_name n = not (is_empty n.long_name) || not (is_empty n.short_name)

-- A node with a name of one database, or else what is found further on.
unfoldable pub named_in : ℕ → NodeDb → Option Node → Option Node
unfolding get has_name
named_in num db further = elim (get num db) [
  | none ↦ further
  | some n ↦ (if has_name n then some n else further)
]

unfoldable pub named_offline : ℕ → List (Bytes × NodeDb) → Option Node → Option Node
unfolding named_in
named_offline num [] stored = stored
named_offline num (e ∷ dbs) stored = named_in num e.1 (named_offline num dbs stored)

unfoldable pub named_live : ℕ → List (Bytes × DeviceRuntime) → Option Node → Option Node
unfolding named_in
named_live num [] further = further
named_live num (e ∷ devices) further = named_in num e.1.db (named_live num devices further)

-- `stored` is what the database on disk holds.
unfoldable pub find_node : (ℕ → Option Node) → ℕ → Devices → Option Node
unfolding has_name named_live named_offline
find_node stored num s = named_live num s.devices (
    named_offline num s.offline_dbs
      (elim (stored num) [ none ↦ none | some n ↦ (if has_name n then some n else none) ]))

unfoldable pub firmware_for : Bytes → Devices → Bytes
unfolding find_device_runtime
firmware_for id s = elim (find_device_runtime id s) [ none ↦ [] | some rt ↦ rt.firmware_version ]

unfoldable pub hw_model_for : Bytes → Devices → Bytes
unfolding find_device_runtime
hw_model_for id s = elim (find_device_runtime id s) [ none ↦ [] | some rt ↦ rt.hw_model ]

unfoldable pub shown_name : Bytes → DeviceRuntime → Bytes
shown_name otherwise rt =
    if not (is_empty rt.display_name)
    then rt.display_name
    else if not (is_empty rt.my_long_name)
    then rt.my_long_name
    else if not (is_empty rt.spec.name)
    then rt.spec.name
    else otherwise

-- The name of an offline database: the one that is known of it, or its key.
unfoldable pub offline_name : Bytes → Devices → Option Bytes
unfolding lookup_key
offline_name id s = elim (lookup_key id s.offline_dbs) [
  | none ↦ none
  | some db ↦ elim (lookup_key id s.offline_device_names) [
    | none ↦ some id
    | some name ↦ some (if is_empty name then id else name)
  ]
]

unfoldable pub display_name_for : Bytes → Devices → Bytes
unfolding is_virtual virtual_original_for lookup_key shown_name first_match offline_name
    normalize_device_identifier
display_name_for id s =
    let norm = normalize_device_identifier id in
    if is_empty id || id =? codes "*"
    then []
    else if is_virtual id
    then codes "Virtual " ++ virtual_original_for id s.virtual_devices
    else elim (lookup_key id s.devices) [
      | some rt ↦ shown_name id rt
      | none ↦ elim (first_match id s.devices) [
        | some rt ↦ shown_name rt.id rt
        | none ↦ elim (offline_name id s) [
          | some name ↦ name
          | none ↦
              (if not (is_empty norm) && not (norm =? id)
                then elim (offline_name norm s) [ none ↦ [] | some name ↦ name ]
                else [])
        ]
      ]
    ]

unfoldable pub spec_for : Bytes → Devices → BleDeviceSpec
unfolding lookup_key first_match fresh_spec
spec_for id s = elim (lookup_key id s.devices) [
  | some rt ↦ rt.spec
  | none ↦ elim (first_match id s.devices) [ none ↦ fresh_spec | some rt ↦ rt.spec ]
]

unfoldable pub raw_packets_for : Bytes → Devices → List Bytes
unfolding lookup_key
raw_packets_for id s = elim (lookup_key id s.devices) [ none ↦ [] | some rt ↦ rt.raw_packets ]

unfoldable pub is_mine_live : ℕ → List (Bytes × DeviceRuntime) → Bool
is_mine_live num [] = false
is_mine_live num (e ∷ devices) =
    e.1.my_node_num == num || e.1.db.my_node_num == num || is_mine_live num devices

unfoldable pub is_mine_offline : ℕ → List (Bytes × NodeDb) → Bool
is_mine_offline num [] = false
is_mine_offline num (e ∷ dbs) = e.1.my_node_num == num || is_mine_offline num dbs

unfoldable pub is_my_node : ℕ → Devices → Bool
unfolding is_mine_live is_mine_offline
is_my_node num s =
    not (num == 0) && (is_mine_live num s.devices || is_mine_offline num s.offline_dbs)

-- A setting of the saved configuration.
pub record DeviceConfigItem : Type 0 where
  pub section : Bytes
  pub key : Bytes
  pub value : Bytes

-- The lines of the settings, with a heading before each section.
unfoldable pub config_text : Bytes → List DeviceConfigItem → List Bytes
config_text section [] = []
config_text section (i ∷ items) =
    let line = i.key ++ (codes " = " ++ i.value) in
    let rest = config_text i.section items in
    if i.section =? section
    then line ∷ rest
    else (codes "--- " ++ (i.section ++ codes " ---")) ∷ line ∷ rest

-- The settings of the first of the names that has any.
unfoldable pub first_saved : (Bytes → List DeviceConfigItem) → List Bytes → List DeviceConfigItem
first_saved saved [] = []
first_saved saved (a ∷ aliases) = elim (saved a) [
  | [] ↦ first_saved saved aliases
  | i ∷ items ↦ i ∷ items
]

unfoldable pub or_same : Bytes → Bytes → Bytes
or_same name otherwise = if is_empty name then otherwise else name

unfoldable pub config_lines_for : (Bytes → List DeviceConfigItem) → Bytes → Devices → List Bytes
unfolding find_device_runtime config_text first_saved or_same normalize_device_identifier
config_lines_for saved id s = elim (find_device_runtime id s) [
  | none ↦ config_text [] (saved (or_same (normalize_device_identifier id) id))
  | some rt ↦ elim rt.config_lines [
    | l ∷ ls ↦ l ∷ ls
    | [] ↦ config_text [] (
        first_saved saved
          (or_same (if is_empty rt.id then rt.spec.address else rt.id) id ∷ rt.aliases))
  ]
]
