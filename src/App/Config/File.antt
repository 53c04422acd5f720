-- ===== src/App/Config/File.antt =====
-- finalize_paths, load_config and save_config of src/app/config.cpp. The password that a first run
-- draws at random, the directory of the data and the files are parameters.
pub mod Lines
pub mod FirstRun
use fmesh_cli.Common.{
  ℕ, ◌+◌, ◌-◌, Bool, true, false, ◌||◌, List, [], ◌∷◌, ◌++◌, Option, none, some, Bytes, codes, take,
  drop, index_of, ◌==◌, ◌=?◌, if◌then◌else◌, map,
}
use fmesh_cli.Stream.Server.Login.{c_string, strip_last}
use fmesh_cli.App.Config.Atoi.{atoi, to_string}
use fmesh_cli.App.Config.Spec.{
  BleDeviceSpec, fresh_spec, same_spec, is_empty, parse_device_spec, format_device_spec,
}
use fmesh_cli.App.Config.Args.{AppConfig}

-- `sizeof(line) - 1`
abbrev pub line_room : ℕ
line_room = 255

-- What `fgets` reads one after the other: up to a newline, that included, and 255 bytes at most.
unfoldable pub chunks : ℕ → Bytes → Bytes → List Bytes
chunks room [] [] = []
chunks room (c ∷ cs) [] = (c ∷ cs) ∷ []
chunks room cur (x ∷ xs) = elim (x == b'\n' || room == 1) [
  | true ↦ (cur ++ (x ∷ [])) ∷ chunks line_room [] xs
  | false ↦ chunks (room - 1) (cur ++ (x ∷ [])) xs
]

unfoldable pub contains : BleDeviceSpec → List BleDeviceSpec → Bool
contains spec [] = false
contains spec (d ∷ ds) = same_spec d spec || contains spec ds

unfoldable pub add_device : Bytes → AppConfig → AppConfig
unfolding contains
add_device v c =
    let (spec, ok) = parse_device_spec v fresh_spec in
    if ok
    then (if contains spec c.devices then c else record c { devices = c.devices ++ (spec ∷ []) })
    else c

unfoldable pub set_key : Bytes → Bytes → AppConfig → AppConfig
unfolding add_device
set_key k v c =
    if k =? codes "server_mode"
    then record c { server_mode = v =? codes "1" || v =? codes "true" }
    else if k =? codes "server_port"
    then record c { server_port = atoi v }
    else if k =? codes "server_user"
    then record c { server_user = v }
    else if k =? codes "server_password"
    then record c { server_password = v }
    else if k =? codes "device"
    then add_device v c
    else c

unfoldable pub load_line : Bytes → AppConfig → AppConfig
unfolding set_key
load_line line c =
    let s = strip_last b'\n' (c_string line) in
    elim (index_of b'=' s) [ none ↦ c | some eq ↦ set_key (take eq s) (drop (eq + 1) s) c ]

unfoldable pub load_lines : List Bytes → AppConfig → AppConfig
unfolding load_line
load_lines [] c = c
load_lines (line ∷ lines) c = load_lines lines (load_line line c)

-- The server's credentials for a mesh host that has none of its own.
unfoldable pub with_login : AppConfig → BleDeviceSpec → BleDeviceSpec
with_login c d = if is_empty d.mesh_host then d else record d {
  mesh_user = (if is_empty d.mesh_user then c.server_user else d.mesh_user);
  mesh_password = (if is_empty d.mesh_password then c.server_password else d.mesh_password);
}

unfoldable pub device_lines : List BleDeviceSpec → Bytes
device_lines [] = []
device_lines (d ∷ ds) =
    let s = format_device_spec d in
    let rest = device_lines ds in
    if is_empty s then rest else codes "device=" ++ (c_string s ++ (b'\n' ∷ rest))

-- What the file then holds; `none` where no path is set. A file that cannot be opened is left as
-- it is.
unfoldable pub save_config : AppConfig → Option Bytes
unfolding device_lines
save_config c =
    if is_empty c.config_path
    then none
    else some (
        codes "server_mode="
        ++ ((if c.server_mode then codes "1" else codes "0")
            ++ (b'\n'
                ∷ (codes "server_port="
                    ++ (to_string c.server_port
                        ++ (b'\n'
                            ∷ (codes "server_user="
                                ++ (c_string c.server_user
                                    ++ (b'\n'
                                        ∷ (codes "server_password="
                                            ++ (c_string c.server_password
                                                ++ (b'\n' ∷ device_lines c.devices))))))))))))

unfoldable pub or_default : Bytes → Bytes → Bytes
or_default path fallback = if is_empty path then fallback else path

-- The paths that are not set lie in the directory of the data.
unfoldable pub with_paths : Bytes → AppConfig → AppConfig
unfolding or_default
with_paths dir c = record c {
  db_path = or_default c.db_path (dir ++ codes "/mesh.db");
  log_path = or_default c.log_path (dir ++ codes "/fmesh-cli.log");
  history_path = or_default c.history_path (dir ++ codes "/history");
  config_path = or_default c.config_path (dir ++ codes "/config.txt");
}

module _ (generated : Bytes) where
  -- The configuration, and what is saved if anything is.
  unfoldable pub load_config : Option Bytes → AppConfig → AppConfig × Option Bytes
  unfolding chunks load_lines with_login save_config
  load_config file c = if is_empty c.config_path then (c, none) else elim file [
    | none ↦ (let c' = record c { server_password = generated } in (c', save_config c'))
    | some text ↦
        (let read = load_lines (chunks line_room [] text) c in
          let full = record read { devices = map (with_login read) read.devices } in
          if is_empty full.server_password
          then (let c' = record full { server_password = generated } in (c', save_config c'))
          else (full, none))
  ]

  unfoldable pub finalize_paths :
      Bytes → (Bytes → Option Bytes) → AppConfig → AppConfig × Option Bytes
  unfolding with_paths load_config
  finalize_paths dir files c = let c' = with_paths dir c in load_config (files c'.config_path) c'
