-- ===== src/App/Config/Spec/RoundTrip.antt =====
-- Saved specifications are read back: parse_device_spec after format_device_spec.
use fmesh_cli.Common.{
  ℕ, ◌+◌, ◌^◌, ◌≤◌, ◌<◌, ◌++◌, ◌≡◌, refl, ◌∙◌, true, ◌||◌, not, [], ◌∷◌, Bytes, codes, length,
  index_of, ◌=?◌, arith, append_assoc,
}
use fmesh_cli.App.Config.Atoi.{pos, to_string}
use fmesh_cli.App.Config.Spec.{
  BleDeviceSpec, fresh_spec, is_empty, kind_of, parse_mesh, parse_device_spec, pin_suffix,
  format_device_spec,
}
use fmesh_cli.App.Config.Spec.Lines.{
  NoColon, ble_spec, addr_spec, tcp_spec, serial_spec, mesh_spec, cut-none, cut_colon, parse_tag,
  nonempty, ble_line, addr_line, serial_line, parse_mesh_host, parse_mesh_login, tcp_line,
  mesh_line, host_nonempty,
}

-- The specifications that one line of text can hold.
pub data Savable : BleDeviceSpec → Type 0 where
  by_name :
      (name pin : Bytes)
      → 1 ≤ length name
      → NoColon name
      → 1 ≤ length pin
      → Savable (ble_spec name pin)
  by_address :
      (address pin : Bytes) → length address ≡ 17 → 1 ≤ length pin → Savable (addr_spec address pin)
  by_tcp : (host : Bytes) → 1 ≤ length host → Savable (tcp_spec host)
  by_serial :
      (path : Bytes) (baud : ℕ)
      → 1 ≤ length path
      → NoColon path
      → 1 ≤ baud
      → baud < 2 ^ 31
      → Savable (serial_spec path baud)
  by_mesh :
      (host port : Bytes)
      → NoColon host
      → NoColon port
      → Savable (mesh_spec (host ++ (b':' ∷ port)) [] [])
  by_login :
      (host port user password : Bytes)
      → NoColon host
      → NoColon port
      → NoColon user
      → 1 ≤ length user + length password
      → Savable (mesh_spec (host ++ (b':' ∷ port)) user password)

login_given :
    (user password : Bytes)
    → 1 ≤ length user + length password
    → (not (is_empty user) || not (is_empty password)) ≡ true
login_given [] [] h = absurd (omega arith)
login_given [] (p ∷ password) h = refl
login_given (u ∷ user) password h = refl

-- A specification that a line can hold is read back from its line as it was.
pub parse_device_spec-format_device_spec :
    (spec : BleDeviceSpec)
    → Savable spec
    → parse_device_spec (format_device_spec spec) fresh_spec ≡ (spec, true)
unfolding format_device_spec ble_spec addr_spec tcp_spec serial_spec mesh_spec fresh_spec kind_of
    ◌=?◌ index_of
parse_device_spec-format_device_spec spec (by_name name pin hn hc hp) =
    rw (format_device_spec, nonempty name hn)
      (parse_tag (codes "ble") (name ++ pin_suffix pin) fresh_spec refl
        ∙ ble_line name pin hn hc hp)
parse_device_spec-format_device_spec spec (by_address address pin ha hp) =
    rw (format_device_spec, nonempty address (omega (arith, ha)))
      (parse_tag (codes "addr") (address ++ pin_suffix pin) fresh_spec refl
        ∙ addr_line address pin ha hp)
parse_device_spec-format_device_spec spec (by_tcp host h) =
    rw (format_device_spec, nonempty host h)
      (parse_tag (codes "tcp") host fresh_spec refl ∙ tcp_line host h)
parse_device_spec-format_device_spec spec (by_serial path baud hp hc hb hi) =
    rw (format_device_spec, nonempty path hp)
      (parse_tag (codes "serial") (path ++ (b':' ∷ to_string (pos baud))) fresh_spec refl
        ∙ serial_line path baud hp hc hb hi)
parse_device_spec-format_device_spec spec (by_mesh host port hh hp) =
    rw (format_device_spec, host_nonempty host port)
      (parse_tag (codes "mesh") (host ++ (b':' ∷ port)) fresh_spec refl
        ∙ mesh_line (host ++ (b':' ∷ port)) (mesh_spec (host ++ (b':' ∷ port)) [] [])
            (parse_mesh_host host port hh hp) (host_nonempty host port))
parse_device_spec-format_device_spec spec (by_login host port user password hh hp hu h) =
    rw
      (
        format_device_spec,
        host_nonempty host port,
        login_given user password h,
        append_assoc host (b':' ∷ port) (b':' ∷ (user ++ (b':' ∷ password))),
      )
      (parse_tag (codes "mesh") (host ++ (b':' ∷ (port ++ (b':' ∷ (user ++ (b':' ∷ password))))))
          fresh_spec refl
        ∙ mesh_line (host ++ (b':' ∷ (port ++ (b':' ∷ (user ++ (b':' ∷ password))))))
            (mesh_spec (host ++ (b':' ∷ port)) user password)
            (parse_mesh_login host port user password hh hp hu) (host_nonempty host port))

-- A login saved with a mesh host that has no port, all without colons: the user is read back as
-- the port, and the password as the user.
pub saved_login_without_port :
    (host user password : Bytes)
    → 1 ≤ length host
    → NoColon host
    → NoColon user
    → NoColon password
    → 1 ≤ length user + length password
    → parse_device_spec (format_device_spec (mesh_spec host user password)) fresh_spec
      ≡ (mesh_spec (host ++ (b':' ∷ user)) password [], true)
unfolding format_device_spec mesh_spec fresh_spec kind_of ◌=?◌ index_of parse_mesh
saved_login_without_port host user password hn hh hu hp h =
    rw (format_device_spec, nonempty host hn, login_given user password h)
      (parse_tag (codes "mesh") (host ++ (b':' ∷ (user ++ (b':' ∷ password)))) fresh_spec refl
        ∙ mesh_line (host ++ (b':' ∷ (user ++ (b':' ∷ password))))
            (mesh_spec (host ++ (b':' ∷ user)) password [])
            (rw
              (
                parse_mesh,
                cut_colon host (user ++ (b':' ∷ password)) hh,
                cut_colon user password hu,
                cut-none password hp,
                cut_colon host (user ++ (b':' ∷ password)) hh,
                cut_colon user password hu,
              )
              refl)
            (host_nonempty host user))
