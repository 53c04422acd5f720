-- ===== src/App/Tests.antt =====
-- Runs of src/app/ at small inputs.
use fmesh_cli.Common.{
  ℕ, ◌≤◌, ◌<◌, ◌^◌, ◌++◌, ◌≡◌, ◌⊎◌, refl, Bool, true, false, List, [], ◌∷◌, Option, none, some,
  Bytes, codes, length, arith,
}
use fmesh_cli.App.Config.Spec.{BleDeviceSpec, fresh_spec, parse_device_spec, format_device_spec}
use fmesh_cli.App.Config.Spec.Lines.{NoColon, serial_spec, mesh_spec}
use fmesh_cli.App.Config.Spec.RoundTrip.{
  Savable, by_serial, by_login, parse_device_spec-format_device_spec, saved_login_without_port,
}
use fmesh_cli.App.Config.Args.{fresh_config, parse_args}
use fmesh_cli.App.Config.Args.Devices.{device_args, parse_args-device_args}
use fmesh_cli.App.Config.File.{finalize_paths, with_paths}
use fmesh_cli.App.Config.File.Lines.{Storable}
use fmesh_cli.App.Config.File.FirstRun.{drawn, finalize_paths_again}
use fmesh_cli.App.Config.Atoi.{to_string}

dev-NoColon : NoColon (codes "/dev/ttyUSB0")
unfolding fmesh_cli.Common.index_of
dev-NoColon = refl

host-NoColon : NoColon (codes "hub")
unfolding fmesh_cli.Common.index_of
host-NoColon = refl

port-NoColon : NoColon (codes "4404")
unfolding fmesh_cli.Common.index_of
port-NoColon = refl

serial-Savable : Savable (serial_spec (codes "/dev/ttyUSB0") 9600)
serial-Savable =
    by_serial (codes "/dev/ttyUSB0") 9600 (omega arith) dev-NoColon (omega arith) (omega arith)

login-Savable :
    Savable (mesh_spec (codes "hub" ++ (b':' ∷ codes "4404")) (codes "hub") (codes "a:b"))
login-Savable =
    by_login (codes "hub") (codes "4404") (codes "hub") (codes "a:b") host-NoColon port-NoColon
      host-NoColon (omega arith)

parse_device_spec-format_device_spec_example :
    parse_device_spec (format_device_spec (serial_spec (codes "/dev/ttyUSB0") 9600)) fresh_spec
    ≡ (serial_spec (codes "/dev/ttyUSB0") 9600, true)
parse_device_spec-format_device_spec_example =
    parse_device_spec-format_device_spec (serial_spec (codes "/dev/ttyUSB0") 9600) serial-Savable

saved_login_without_port_example :
    parse_device_spec
      (format_device_spec (mesh_spec (codes "hub") (codes "4404") (codes "hub")))
      fresh_spec
    ≡ (mesh_spec (codes "hub" ++ (b':' ∷ codes "4404")) (codes "hub") [], true)
saved_login_without_port_example =
    saved_login_without_port (codes "hub") (codes "4404") (codes "hub") (omega arith) host-NoColon
      port-NoColon host-NoColon (omega arith)

abbrev two_devices : List BleDeviceSpec
two_devices =
    serial_spec (codes "/dev/ttyUSB0") 9600
    ∷ mesh_spec (codes "hub" ++ (b':' ∷ codes "4404")) (codes "hub") (codes "a:b")
    ∷ []

default_pin_given : fresh_config.pin ≡ codes "123456"
unfolding fresh_config
default_pin_given = refl

parse_args-device_args_example :
    parse_args (device_args two_devices) fresh_config
    ≡ some (record fresh_config { devices = fresh_config.devices ++ two_devices })
parse_args-device_args_example =
    parse_args-device_args two_devices fresh_config (serial-Savable, (login-Savable, tt))
      default_pin_given

abbrev no_files : Bytes → Option Bytes
no_files path = none

secret-Storable : Storable (codes "Secret")
secret-Storable = record { no_nul = ground arith; one_line = ground arith; short = omega arith }

user-Storable : Storable fresh_config.server_user
unfolding fresh_config
user-Storable = record { no_nul = ground arith; one_line = ground arith; short = omega arith }

port-Storable : Storable (to_string fresh_config.server_port)
unfolding to_string fresh_config
port-Storable = record { no_nul = ground arith; one_line = ground arith; short = omega arith }

finalize_paths_again_example :
    let (first, saved) = finalize_paths (codes "Secret") (codes "/data") no_files fresh_config in
    (first ≡ drawn (codes "Secret") (with_paths (codes "/data") fresh_config))
    × (finalize_paths (codes "Other") (codes "/data") (λ path. saved) fresh_config ≡ (first, none))
unfolding fresh_config
finalize_paths_again_example =
    finalize_paths_again (codes "Secret") (codes "Other") (codes "/data") no_files 4404 fresh_config
      refl refl refl refl (omega arith) port-Storable user-Storable secret-Storable
