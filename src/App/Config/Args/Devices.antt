-- ===== src/App/Config/Args/Devices.antt =====
-- The devices that parse_args collects.
use fmesh_cli.Common.{
  ◌++◌, ◌≡◌, refl, ap, ◌∙◌, true, false, List, [], ◌∷◌, some, Bytes, codes, ◌=?◌, append_assoc,
  append-nil,
}
use fmesh_cli.App.Config.Spec.{
  BleDeviceSpec, default_pin, fresh_spec, parse_device_spec, format_device_spec,
}
use fmesh_cli.App.Config.Spec.RoundTrip.{Savable, parse_device_spec-format_device_spec}
use fmesh_cli.App.Config.Args.{
  AppConfig, device, arg_of, set_value, is_legacy, legacy_device, parse_from, parse_args,
}

-- `--device <spec>` for each of them.
abbrev pub device_args : List BleDeviceSpec → List Bytes
device_args [] = []
device_args (d ∷ ds) = codes "--device" ∷ format_device_spec d ∷ device_args ds

abbrev pub AllSavable : List BleDeviceSpec → Type 0
AllSavable [] = Unit {0}
AllSavable (d ∷ ds) = Savable d × AllSavable ds

unused_legacy : (c : AppConfig) → legacy_device false c ≡ c
unfolding legacy_device
unused_legacy c = by_devices c.devices refl
  where
    by_devices : (ds : List BleDeviceSpec) → c.devices ≡ ds → legacy_device false c ≡ c
    by_devices [] e = simp (legacy_device, e)
    by_devices (d ∷ ds) e = simp (legacy_device, e)

set_device :
    (d : BleDeviceSpec) (c : AppConfig)
    → Savable d
    → c.pin ≡ default_pin
    → set_value device (format_device_spec d) c
      ≡ some (record c { devices = c.devices ++ (d ∷ []) })
unfolding set_value fresh_spec
set_device d c h e = rw (set_value, parsed) refl
  where
    parsed :
        parse_device_spec (format_device_spec d) (record fresh_spec { pin = c.pin }) ≡ (d, true)
    parsed =
        ap (λ p. parse_device_spec (format_device_spec d) (record fresh_spec { pin = p })) e
        ∙ parse_device_spec-format_device_spec d h

parse_from-device_args :
    (ds : List BleDeviceSpec) (c : AppConfig)
    → AllSavable ds
    → c.pin ≡ default_pin
    → parse_from (device_args ds) false c ≡ some (record c { devices = c.devices ++ ds })
unfolding parse_from arg_of ◌=?◌ is_legacy
parse_from-device_args [] c h e = rw (append-nil c.devices) (ap some (unused_legacy c))
parse_from-device_args (d ∷ ds) c h e =
    rw (parse_from, set_device d c h.0 e)
      (parse_from-device_args ds (record c { devices = c.devices ++ (d ∷ []) }) h.1 e
        ∙ ap (λ all. some (record c { devices = all })) (append_assoc c.devices (d ∷ []) ds))

-- Specifications that a line can hold, given as `--device` arguments to a configuration with the
-- default PIN, become its devices behind those it had, in their order.
pub parse_args-device_args :
    (ds : List BleDeviceSpec) (c : AppConfig)
    → AllSavable ds
    → c.pin ≡ default_pin
    → parse_args (device_args ds) c ≡ some (record c { devices = c.devices ++ ds })
unfolding parse_args
parse_args-device_args ds c h e = parse_from-device_args ds c h e
