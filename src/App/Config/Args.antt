-- ===== src/App/Config/Args.antt =====
-- AppConfig of src/app/config.h and parse_args of src/app/config.cpp. The texts that `--help` and
-- the errors print are left out.
pub mod Devices
use fmesh_cli.Common.{
  ℕ, Bool, true, false, ◌&&◌, ◌||◌, not, List, [], ◌∷◌, ◌++◌, Option, none, some, Bytes, codes,
  ◌=?◌, if◌then◌else◌,
}
use fmesh_cli.App.Config.Atoi.{ℤ, pos, atoi}
use fmesh_cli.App.Config.Spec.{BleDeviceSpec, default_pin, fresh_spec, is_empty, parse_device_spec}

pub record AppConfig : Type 0 where
  pub device_name : Bytes
  pub device_addr : Bytes
  pub pin : Bytes
  pub tcp_host : Bytes
  pub serial_port : Bytes
  pub serial_baud : ℤ
  pub db_path : Bytes
  pub log_path : Bytes
  pub history_path : Bytes
  pub pair : Bool
  pub list_only : Bool
  pub headless : Bool
  pub log_debug : Bool
  pub devices : List BleDeviceSpec
  pub server_mode : Bool
  pub server_port : ℤ
  pub server_user : Bytes
  pub server_password : Bytes
  pub config_path : Bytes
  pub web_enabled : Bool
  pub web_port : ℤ
  pub web_host : Bytes
  pub web_root : Bytes

unfoldable pub fresh_config : AppConfig
fresh_config = record {
  device_name = [];
  device_addr = [];
  pin = default_pin;
  tcp_host = [];
  serial_port = [];
  serial_baud = pos 115200;
  db_path = [];
  log_path = [];
  history_path = [];
  pair = false;
  list_only = false;
  headless = false;
  log_debug = false;
  devices = [];
  server_mode = false;
  server_port = pos 4404;
  server_user = codes "admin";
  server_password = [];
  config_path = [];
  web_enabled = false;
  web_port = pos 8080;
  web_host = codes "0.0.0.0";
  web_root = codes "web";
}

-- The arguments that stand alone.
pub data Flag : Type 0 where
  help debug scan headless web pair : Flag

-- The arguments with a value behind them.
pub data Setting : Type 0 where
  device name addr pin tcp serial serial_baud db log web_port web_host web_dir : Setting

pub data Arg : Type 0 where
  flag : Flag → Arg
  setting : Setting → Arg
  unknown : Arg

unfoldable pub arg_of : Bytes → Arg
arg_of a =
    if a =? codes "--help" || a =? codes "-h"
    then flag help
    else if a =? codes "--device"
    then setting device
    else if a =? codes "--name"
    then setting name
    else if a =? codes "--addr"
    then setting addr
    else if a =? codes "--pin"
    then setting pin
    else if a =? codes "--tcp"
    then setting tcp
    else if a =? codes "--serial"
    then setting serial
    else if a =? codes "--serial-baud"
    then setting serial_baud
    else if a =? codes "--db"
    then setting db
    else if a =? codes "--log"
    then setting log
    else if a =? codes "--debug"
    then flag debug
    else if a =? codes "--scan"
    then flag scan
    else if a =? codes "--headless"
    then flag headless
    else if a =? codes "--web"
    then flag web
    else if a =? codes "--web-port"
    then setting web_port
    else if a =? codes "--web-host"
    then setting web_host
    else if a =? codes "--web-dir"
    then setting web_dir
    else if a =? codes "pair"
    then flag pair
    else unknown

-- `--help` ends the program, which `none` stands for.
unfoldable pub set_flag : Flag → AppConfig → Option AppConfig
set_flag help c = none
set_flag debug c = some (record c { log_debug = true })
set_flag scan c = some (record c { list_only = true })
set_flag headless c = some (record c { headless = true })
set_flag web c = some (record c { web_enabled = true })
set_flag pair c = some (record c { pair = true })

-- `none` is the refusal of a device specification.
unfoldable pub set_value : Setting → Bytes → AppConfig → Option AppConfig
set_value device v c =
    let (spec, ok) = parse_device_spec v (record fresh_spec { pin = c.pin }) in
    if ok then some (record c { devices = c.devices ++ (spec ∷ []) }) else none
set_value name v c = some (record c { device_addr = []; device_name = v })
set_value addr v c = some (record c { device_addr = v })
set_value pin v c = some (record c { pin = v })
set_value tcp v c = some (record c { tcp_host = v })
set_value serial v c = some (record c { serial_port = v })
set_value serial_baud v c = some (record c { serial_baud = atoi v })
set_value db v c = some (record c { db_path = v })
set_value log v c = some (record c { log_path = v })
set_value web_port v c = some (record c { web_enabled = true; web_port = atoi v })
set_value web_host v c = some (record c { web_enabled = true; web_host = v })
set_value web_dir v c = some (record c { web_enabled = true; web_root = v })

-- The settings that describe one device outside `--device`.
unfoldable pub is_legacy : Setting → Bool
is_legacy name = true
is_legacy addr = true
is_legacy tcp = true
is_legacy serial = true
is_legacy device = false
is_legacy pin = false
is_legacy serial_baud = false
is_legacy db = false
is_legacy log = false
is_legacy web_port = false
is_legacy web_host = false
is_legacy web_dir = false

-- The device that the legacy settings describe.
unfoldable pub legacy_spec : AppConfig → BleDeviceSpec
unfolding fresh_spec
legacy_spec c = record fresh_spec {
  name = c.device_name;
  address = c.device_addr;
  pin = c.pin;
  tcp_host = c.tcp_host;
  serial_port = c.serial_port;
  serial_baud = c.serial_baud;
}

-- It is added where no `--device` was given.
unfoldable pub legacy_device : Bool → AppConfig → AppConfig
unfolding legacy_spec
legacy_device used c = elim c.devices [
  | [] ↦
      (if used
          && (not (is_empty c.device_name)
              || (not (is_empty c.device_addr)
                  || (not (is_empty c.tcp_host) || not (is_empty c.serial_port))))
        then record c { devices = legacy_spec c ∷ [] }
        else c)
  | d ∷ ds ↦ c
]

-- The arguments from the left. An option whose value is missing is an unknown argument.
unfoldable pub parse_from : List Bytes → Bool → AppConfig → Option AppConfig
unfolding arg_of set_flag set_value is_legacy legacy_device
parse_from [] used c = some (legacy_device used c)
parse_from (a ∷ []) used c = elim (arg_of a) [
  | flag f ↦ elim (set_flag f c) [ none ↦ none | some c' ↦ some (legacy_device used c') ]
  | setting s ↦ none
  | unknown ↦ none
]
parse_from (a ∷ v ∷ args) used c = elim (arg_of a) [
  | flag f ↦ elim (set_flag f c) [ none ↦ none | some c' ↦ parse_from (v ∷ args) used c' ]
  | setting s ↦ elim (set_value s v c) [
    | none ↦ none
    | some c' ↦ parse_from args (used || is_legacy s) c'
  ]
  | unknown ↦ none
]

-- `argv` after the program's name. `none` is the result `false`.
unfoldable pub parse_args : List Bytes → AppConfig → Option AppConfig
unfolding parse_from
parse_args args out = parse_from args false out
