-- ===== src/Mesh/NodeDb/Fields.antt =====
-- What a report about a node (src/mesh/node_db.h) says, field by field, and what NodeDb::merge of
-- src/mesh/node_db.cpp makes of two.
use fmesh_cli.Common.{
  ℕ, ◌≡◌, refl, Bool, true, false, ◌||◌, [], ◌∷◌, Option, none, some, Bytes, if◌then◌else◌,
  Bool-cases, inl, inr,
}
use fmesh_cli.App.Config.Atoi.{ℤ}
use fmesh_cli.App.Config.Spec.{is_empty}
use fmesh_cli.Mesh.NodeId.{node_num_to_id}
use fmesh_cli.Mesh.NodeDb.{Node, prefer, prefer_text, merge, with_id}

-- The parts of a node that a report may leave out.
pub data Field : Type 0 where
  of_long_name of_short_name of_hw_model of_role of_latitude of_longitude of_battery_level
        of_voltage of_channel_util of_air_util_tx of_uptime_seconds of_temperature
        of_relative_humidity of_barometric_pressure of_gas_resistance of_iaq of_pm25 of_co2
        of_current of_snr of_hops_away of_last_heard of_altitude of_is_favorite of_is_muted
        of_is_key_verified of_public_key :
      Field

-- What a report says of a field.
pub data Value : Type 0 where
  number : ℕ → Value
  signed : ℤ → Value
  text : Bytes → Value
  yes : Value

unfoldable pub number_of : Option ℕ → Option Value
number_of none = none
number_of (some n) = some (number n)

unfoldable pub signed_of : Option ℤ → Option Value
signed_of none = none
signed_of (some z) = some (signed z)

-- An empty text says nothing.
unfoldable pub text_of : Bytes → Option Value
text_of [] = none
text_of (b ∷ bs) = some (text (b ∷ bs))

-- A flag that is not set says nothing.
unfoldable pub flag_of : Bool → Option Value
flag_of false = none
flag_of true = some yes

unfoldable pub key_of : Bool → Bytes → Option Value
key_of false key = none
key_of true key = some (text key)

unfoldable pub said : Field → Node → Option Value
unfolding number_of signed_of text_of flag_of key_of
said of_long_name n = text_of n.long_name
said of_short_name n = text_of n.short_name
said of_hw_model n = text_of n.hw_model
said of_role n = text_of n.role
said of_latitude n = number_of n.latitude
said of_longitude n = number_of n.longitude
said of_battery_level n = number_of n.battery_level
said of_voltage n = number_of n.voltage
said of_channel_util n = number_of n.channel_util
said of_air_util_tx n = number_of n.air_util_tx
said of_uptime_seconds n = number_of n.uptime_seconds
said of_temperature n = number_of n.temperature
said of_relative_humidity n = number_of n.relative_humidity
said of_barometric_pressure n = number_of n.barometric_pressure
said of_gas_resistance n = number_of n.gas_resistance
said of_iaq n = number_of n.iaq
said of_pm25 n = number_of n.pm25
said of_co2 n = number_of n.co2
said of_current n = number_of n.current
said of_snr n = number_of n.snr
said of_hops_away n = number_of n.hops_away
said of_last_heard n = number_of n.last_heard
said of_altitude n = signed_of n.altitude
said of_is_favorite n = flag_of n.is_favorite
said of_is_muted n = flag_of n.is_muted
said of_is_key_verified n = flag_of n.is_key_verified
said of_public_key n = key_of n.has_public_key n.public_key

number_of-prefer : (a b : Option ℕ) → number_of (prefer a b) ≡ prefer (number_of a) (number_of b)
unfolding number_of prefer
number_of-prefer none b = refl
number_of-prefer (some a) b = refl

signed_of-prefer : (a b : Option ℤ) → signed_of (prefer a b) ≡ prefer (signed_of a) (signed_of b)
unfolding signed_of prefer
signed_of-prefer none b = refl
signed_of-prefer (some a) b = refl

text_of-prefer_text : (a b : Bytes) → text_of (prefer_text a b) ≡ prefer (text_of a) (text_of b)
unfolding text_of prefer prefer_text
text_of-prefer_text [] b = refl
text_of-prefer_text (c ∷ a) b = refl

flag_of-or : (a b : Bool) → flag_of (a || b) ≡ prefer (flag_of a) (flag_of b)
unfolding flag_of prefer
flag_of-or true b = refl
flag_of-or false b = refl

key_of-or :
    (a b : Bool) (x y : Bytes)
    → key_of (a || b) (if a then x else y) ≡ prefer (key_of a x) (key_of b y)
unfolding key_of prefer
key_of-or true b x y = refl
key_of-or false b x y = refl

pub said-merge :
    (field : Field) (n old : Node)
    → said field (merge n old) ≡ prefer (said field n) (said field old)
unfolding said merge
said-merge of_long_name n old = text_of-prefer_text n.long_name old.long_name
said-merge of_short_name n old = text_of-prefer_text n.short_name old.short_name
said-merge of_hw_model n old = text_of-prefer_text n.hw_model old.hw_model
said-merge of_role n old = text_of-prefer_text n.role old.role
said-merge of_latitude n old = number_of-prefer n.latitude old.latitude
said-merge of_longitude n old = number_of-prefer n.longitude old.longitude
said-merge of_battery_level n old = number_of-prefer n.battery_level old.battery_level
said-merge of_voltage n old = number_of-prefer n.voltage old.voltage
said-merge of_channel_util n old = number_of-prefer n.channel_util old.channel_util
said-merge of_air_util_tx n old = number_of-prefer n.air_util_tx old.air_util_tx
said-merge of_uptime_seconds n old = number_of-prefer n.uptime_seconds old.uptime_seconds
said-merge of_temperature n old = number_of-prefer n.temperature old.temperature
said-merge of_relative_humidity n old = number_of-prefer n.relative_humidity old.relative_humidity
said-merge of_barometric_pressure n old =
    number_of-prefer n.barometric_pressure old.barometric_pressure
said-merge of_gas_resistance n old = number_of-prefer n.gas_resistance old.gas_resistance
said-merge of_iaq n old = number_of-prefer n.iaq old.iaq
said-merge of_pm25 n old = number_of-prefer n.pm25 old.pm25
said-merge of_co2 n old = number_of-prefer n.co2 old.co2
said-merge of_current n old = number_of-prefer n.current old.current
said-merge of_snr n old = number_of-prefer n.snr old.snr
said-merge of_hops_away n old = number_of-prefer n.hops_away old.hops_away
said-merge of_last_heard n old = number_of-prefer n.last_heard old.last_heard
said-merge of_altitude n old = signed_of-prefer n.altitude old.altitude
said-merge of_is_favorite n old = flag_of-or n.is_favorite old.is_favorite
said-merge of_is_muted n old = flag_of-or n.is_muted old.is_muted
said-merge of_is_key_verified n old = flag_of-or n.is_key_verified old.is_key_verified
said-merge of_public_key n old =
    key_of-or n.has_public_key old.has_public_key n.public_key old.public_key

said-node_id :
    (field : Field) (id : Bytes) (n : Node) → said field (record n { node_id = id }) ≡ said field n
unfolding said
said-node_id of_long_name id n = refl
said-node_id of_short_name id n = refl
said-node_id of_hw_model id n = refl
said-node_id of_role id n = refl
said-node_id of_latitude id n = refl
said-node_id of_longitude id n = refl
said-node_id of_battery_level id n = refl
said-node_id of_voltage id n = refl
said-node_id of_channel_util id n = refl
said-node_id of_air_util_tx id n = refl
said-node_id of_uptime_seconds id n = refl
said-node_id of_temperature id n = refl
said-node_id of_relative_humidity id n = refl
said-node_id of_barometric_pressure id n = refl
said-node_id of_gas_resistance id n = refl
said-node_id of_iaq id n = refl
said-node_id of_pm25 id n = refl
said-node_id of_co2 id n = refl
said-node_id of_current id n = refl
said-node_id of_snr id n = refl
said-node_id of_hops_away id n = refl
said-node_id of_last_heard id n = refl
said-node_id of_altitude id n = refl
said-node_id of_is_favorite id n = refl
said-node_id of_is_muted id n = refl
said-node_id of_is_key_verified id n = refl
said-node_id of_public_key id n = refl

pub said-with_id : (field : Field) (n : Node) → said field (with_id n) ≡ said field n
unfolding with_id
said-with_id field n = elim (Bool-cases (is_empty n.node_id)) [
  | inl e ↦ rw (with_id, e) (said-node_id field (node_num_to_id n.node_num) n)
  | inr e ↦ rw (with_id, e) refl
]
