-- ===== src/Mesh/NodeDb.antt =====
-- src/mesh/node_db.h and node_db.cpp: the nodes and channels of one device. The mutex makes every
-- operation one step. A floating-point number is carried as the bits of its representation.
pub mod Laws
pub mod Fields
pub mod Latest
pub mod Fuzzy
use fmesh_cli.Common.{
  ℕ, suc, ◌+◌, ◌-◌, Bool, true, false, ◌&&◌, ◌||◌, List, [], ◌∷◌, Option, none, some, Bytes, length,
  ltb, leb, ◌==◌, ◌=?◌, if◌then◌else◌, map, put, lookup,
}
use fmesh_cli.App.Config.Atoi.{ℤ}
use fmesh_cli.App.Config.Spec.{is_empty}
use fmesh_cli.Mesh.NodeId.{node_num_to_id, parse_node_id}
use fmesh_cli.Tui.Window.{find}

pub record Node : Type 0 where
  pub node_num : ℕ
  pub node_id : Bytes
  pub long_name : Bytes
  pub short_name : Bytes
  pub hw_model : Bytes
  pub role : Bytes
  pub is_favorite : Bool
  pub is_ignored : Bool
  pub is_muted : Bool
  pub is_key_verified : Bool
  pub has_public_key : Bool
  pub public_key : Bytes
  pub latitude : Option ℕ
  pub longitude : Option ℕ
  pub altitude : Option ℤ
  pub battery_level : Option ℕ
  pub voltage : Option ℕ
  pub channel_util : Option ℕ
  pub air_util_tx : Option ℕ
  pub uptime_seconds : Option ℕ
  pub temperature : Option ℕ
  pub relative_humidity : Option ℕ
  pub barometric_pressure : Option ℕ
  pub gas_resistance : Option ℕ
  pub iaq : Option ℕ
  pub pm25 : Option ℕ
  pub co2 : Option ℕ
  pub current : Option ℕ
  pub snr : Option ℕ
  pub hops_away : Option ℕ
  pub last_heard : Option ℕ

pub record Channel : Type 0 where
  pub index : ℕ
  pub name : Bytes
  pub has_psk : Bool
  pub role : Bytes

pub record NodeDb : Type 0 where
  pub nodes : List (ℕ × Node)
  pub channels : List (ℕ × Channel)
  pub my_node_num : ℕ

unfoldable pub clear : NodeDb → NodeDb
clear db = record { nodes = []; channels = []; my_node_num = 0 }

-- `Node n; n.node_num = node_num;`
unfoldable pub fresh_node : ℕ → Node
fresh_node num = record {
  node_num = num;
  node_id = [];
  long_name = [];
  short_name = [];
  hw_model = [];
  role = [];
  is_favorite = false;
  is_ignored = false;
  is_muted = false;
  is_key_verified = false;
  has_public_key = false;
  public_key = [];
  latitude = none;
  longitude = none;
  altitude = none;
  battery_level = none;
  voltage = none;
  channel_util = none;
  air_util_tx = none;
  uptime_seconds = none;
  temperature = none;
  relative_humidity = none;
  barometric_pressure = none;
  gas_resistance = none;
  iaq = none;
  pm25 = none;
  co2 = none;
  current = none;
  snr = none;
  hops_away = none;
  last_heard = none;
}

-- The new value where there is one.
unfoldable pub prefer {ℓ} : {A : Type ℓ} → Option A → Option A → Option A
prefer none old = old
prefer (some a) old = some a

unfoldable pub prefer_text : Bytes → Bytes → Bytes
prefer_text [] old = old
prefer_text (b ∷ bs) old = b ∷ bs

-- What is known of a node, from a new report `n` and what was stored.
unfoldable pub merge : Node → Node → Node
unfolding prefer prefer_text
merge n stored = record stored {
  long_name = prefer_text n.long_name stored.long_name;
  short_name = prefer_text n.short_name stored.short_name;
  hw_model = prefer_text n.hw_model stored.hw_model;
  role = prefer_text n.role stored.role;
  latitude = prefer n.latitude stored.latitude;
  longitude = prefer n.longitude stored.longitude;
  altitude = prefer n.altitude stored.altitude;
  battery_level = prefer n.battery_level stored.battery_level;
  voltage = prefer n.voltage stored.voltage;
  channel_util = prefer n.channel_util stored.channel_util;
  air_util_tx = prefer n.air_util_tx stored.air_util_tx;
  uptime_seconds = prefer n.uptime_seconds stored.uptime_seconds;
  temperature = prefer n.temperature stored.temperature;
  relative_humidity = prefer n.relative_humidity stored.relative_humidity;
  barometric_pressure = prefer n.barometric_pressure stored.barometric_pressure;
  gas_resistance = prefer n.gas_resistance stored.gas_resistance;
  iaq = prefer n.iaq stored.iaq;
  pm25 = prefer n.pm25 stored.pm25;
  co2 = prefer n.co2 stored.co2;
  current = prefer n.current stored.current;
  snr = prefer n.snr stored.snr;
  hops_away = prefer n.hops_away stored.hops_away;
  last_heard = prefer n.last_heard stored.last_heard;
  has_public_key = n.has_public_key || stored.has_public_key;
  public_key = (if n.has_public_key then n.public_key else stored.public_key);
  is_favorite = n.is_favorite || stored.is_favorite;
  is_muted = n.is_muted || stored.is_muted;
  is_key_verified = n.is_key_verified || stored.is_key_verified;
}

unfoldable pub with_id : Node → Node
with_id n = if is_empty n.node_id then record n { node_id = node_num_to_id n.node_num } else n

unfoldable pub upsert_node : Node → NodeDb → NodeDb
unfolding merge with_id
upsert_node n db =
    let n' = with_id n in
    elim (lookup n.node_num db.nodes) [
      | none ↦ record db { nodes = put n.node_num n' db.nodes }
      | some stored ↦ record db { nodes = put n.node_num (merge n' stored) db.nodes }
    ]

unfoldable pub update_position : ℕ → ℕ → ℕ → ℤ → NodeDb → NodeDb
unfolding fresh_node
update_position node_num lat lon alt db = elim (lookup node_num db.nodes) [
  | none ↦ record db {
    nodes =
        put node_num
          (record (fresh_node node_num) {
            node_id = node_num_to_id node_num;
            latitude = some lat;
            longitude = some lon;
            altitude = some alt;
          })
          db.nodes;
  }
  | some stored ↦ record db {
    nodes =
        put node_num
          (record stored { latitude = some lat; longitude = some lon; altitude = some alt })
          db.nodes;
  }
]

unfoldable pub upsert_channel : Channel → NodeDb → NodeDb
upsert_channel c db = record db { channels = put c.index c db.channels }

unfoldable pub get : ℕ → NodeDb → Option Node
get node_num db = lookup node_num db.nodes

unfoldable pub get_by_id : Bytes → NodeDb → Option Node
unfolding get
get_by_id id db = elim (parse_node_id id) [ none ↦ none | some num ↦ get num db ]

unfoldable pub values {ℓ} : {A : Type ℓ} → List (ℕ × A) → List A
values [] = []
values (e ∷ m) = e.1 ∷ values m

unfoldable pub all : NodeDb → List Node
unfolding values
all db = values db.nodes

unfoldable pub all_channels : NodeDb → List Channel
unfolding values
all_channels db = values db.channels

unfoldable pub channel : ℕ → NodeDb → Option Channel
channel idx db = lookup idx db.channels

unfoldable pub set_my_node_num : ℕ → NodeDb → NodeDb
set_my_node_num n db = record db { my_node_num = n }

-- tolower in the C locale.
unfoldable pub to_lower : Bytes → Bytes
to_lower [] = []
to_lower (c ∷ cs) = (if leb b'A' c && leb c b'Z' then c + 32 else c) ∷ to_lower cs

-- The place of `q` in a text; the empty text is at the front of every one.
unfoldable pub place : Bytes → Bytes → Option ℕ
place [] text = some 0
place (c ∷ cs) text = find (c ∷ cs) text

unfoldable pub is_at_front : Option ℕ → Bool
is_at_front none = false
is_at_front (some i) = i == 0

unfoldable pub occurs : Option ℕ → Bool
occurs none = false
occurs (some i) = true

-- How well the lower-case names match `q`.
unfoldable pub score : Bytes → Node → ℕ
unfolding to_lower place is_at_front occurs
score q node =
    let ln = to_lower node.long_name in
    let sn = to_lower node.short_name in
    if ln =? q || sn =? q
    then 100
    else if is_at_front (place q ln)
    then 80
    else if is_at_front (place q sn)
    then 70
    else if occurs (place q ln)
    then 50
    else if occurs (place q sn)
    then 40
    else 0

-- The first of the best matches that is better than those before.
unfoldable pub best_of : Bytes → List Node → Option Node → ℕ → Option Node
unfolding score
best_of q [] best best_score = best
best_of q (n ∷ ns) best best_score = elim (ltb best_score (score q n)) [
  | true ↦ best_of q ns (some n) (score q n)
  | false ↦ best_of q ns best best_score
]

unfoldable pub find_by_name : Bytes → NodeDb → Option Node
unfolding all best_of
find_by_name query db = best_of (to_lower query) (all db) none 0

unfoldable pub find_fuzzy : Bytes → NodeDb → Option Node
unfolding get_by_id find_by_name
find_fuzzy query db = elim (get_by_id query db) [
  | some node ↦ some node
  | none ↦ find_by_name query db
]
