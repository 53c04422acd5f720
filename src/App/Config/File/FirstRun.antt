-- ===== src/App/Config/File/FirstRun.antt =====
-- The file that save_config of src/app/config.cpp writes on a first run, as the next run reads it.
use fmesh_cli.Common.{
  ℕ, ◌^◌, ◌<◌, ◌≡◌, refl, sym, ap, ◌∙◌, Bool, true, false, [], ◌∷◌, ◌++◌, Option, none, some, Bytes,
  codes, index_of, arith, ◌=?◌, if◌then◌else◌,
}
use fmesh_cli.Stream.Server.Login.Accepts.{NoNul, c_string-NoNul}
use fmesh_cli.App.Config.Atoi.{pos, atoi, to_string, atoi-to_string}
use fmesh_cli.App.Config.Spec.{is_empty}
use fmesh_cli.App.Config.Args.{AppConfig}
use fmesh_cli.App.Config.File.{
  line_room, chunks, set_key, load_lines, save_config, load_config, or_default, with_paths,
  finalize_paths, device_lines,
}
use fmesh_cli.App.Config.File.Lines.{Storable, IsKey, key_line, load_first}

-- The mode, as it is written.
abbrev mode_text : Bool → Bytes
mode_text mode = if mode then codes "1" else codes "0"

mode_text-Storable : (mode : Bool) → Storable (mode_text mode)
mode_text-Storable true = record {
  no_nul = (omega arith, tt);
  one_line = (refl, tt);
  short = omega arith;
}
mode_text-Storable false = record {
  no_nul = (omega arith, tt);
  one_line = (refl, tt);
  short = omega arith;
}

set_key-mode :
    (mode : Bool) (c : AppConfig)
    → set_key (codes "server_mode") (mode_text mode) c ≡ record c { server_mode = mode }
unfolding set_key ◌=?◌
set_key-mode true c = refl
set_key-mode false c = refl

set_key-port :
    (v : Bytes) (c : AppConfig)
    → set_key (codes "server_port") v c ≡ record c { server_port = atoi v }
unfolding set_key ◌=?◌
set_key-port v c = refl

set_key-user :
    (v : Bytes) (c : AppConfig) → set_key (codes "server_user") v c ≡ record c { server_user = v }
unfolding set_key ◌=?◌
set_key-user v c = refl

set_key-password :
    (v : Bytes) (c : AppConfig)
    → set_key (codes "server_password") v c ≡ record c { server_password = v }
unfolding set_key ◌=?◌
set_key-password v c = refl

abbrev mode_key : Bytes
mode_key = codes "server_mode"

abbrev port_key : Bytes
port_key = codes "server_port"

abbrev user_key : Bytes
user_key = codes "server_user"

abbrev password_key : Bytes
password_key = codes "server_password"

mode_key-IsKey : IsKey mode_key
unfolding index_of
mode_key-IsKey = record {
  no_nul = ground arith;
  one_line = ground arith;
  short = omega arith;
  no_sign = refl;
}

port_key-IsKey : IsKey port_key
unfolding index_of
port_key-IsKey = record {
  no_nul = ground arith;
  one_line = ground arith;
  short = omega arith;
  no_sign = refl;
}

user_key-IsKey : IsKey user_key
unfolding index_of
user_key-IsKey = record {
  no_nul = ground arith;
  one_line = ground arith;
  short = omega arith;
  no_sign = refl;
}

password_key-IsKey : IsKey password_key
unfolding index_of
password_key-IsKey = record {
  no_nul = ground arith;
  one_line = ground arith;
  short = omega arith;
  no_sign = refl;
}

-- The four lines that the file holds without devices.
load_four :
    (mode : Bool) (port user password : Bytes) (c : AppConfig)
    → Storable port
    → Storable user
    → Storable password
    → load_lines
        (chunks line_room [] (
          key_line mode_key
            (mode_text mode)
            (key_line port_key port (key_line user_key user (key_line password_key password [])))))
        c
      ≡ record c {
        server_mode = mode;
        server_port = atoi port;
        server_user = user;
        server_password = password;
      }
unfolding load_lines chunks
load_four mode port user password c hp hu hw =
    let last : Bytes = key_line password_key password [] in
    let later : Bytes = key_line user_key user last in
    let c1 : AppConfig = record c { server_mode = mode } in
    let c2 : AppConfig = record c1 { server_port = atoi port } in
    let c3 : AppConfig = record c2 { server_user = user } in
    let c4 : AppConfig = record c3 { server_password = password } in
    load_first mode_key (mode_text mode) (key_line port_key port later) c c1 mode_key-IsKey
      (mode_text-Storable mode) (set_key-mode mode c)
    ∙ load_first port_key port later c1 c2 port_key-IsKey hp (set_key-port port c1)
    ∙ load_first user_key user last c2 c3 user_key-IsKey hu (set_key-user user c2)
    ∙ load_first password_key password [] c3 c4 password_key-IsKey hw (set_key-password password c3)

-- What a first run with the drawn password leaves.
abbrev pub drawn : Bytes → AppConfig → AppConfig
drawn generated c = record c { server_password = generated }

saved_lines :
    (generated : Bytes) (n : ℕ) (c : AppConfig)
    → is_empty c.config_path ≡ false
    → c.devices ≡ []
    → NoNul c.server_user
    → NoNul generated
    → save_config (drawn generated c)
      ≡ some (
          key_line mode_key (mode_text c.server_mode) (
            key_line port_key
              (to_string c.server_port)
              (key_line user_key c.server_user (key_line password_key generated []))))
unfolding save_config device_lines
saved_lines generated n c hp hd hu hg =
    rw (save_config, hp, c_string-NoNul c.server_user hu, c_string-NoNul generated hg, hd) refl

first_load :
    (generated : Bytes) (file : Option Bytes) (c : AppConfig)
    → is_empty c.config_path ≡ false
    → file ≡ none
    → load_config generated file c ≡ (drawn generated c, save_config (drawn generated c))
unfolding load_config
first_load generated none c hc hf = ground (arith, hc)
first_load generated (some text) c hc hf = cc

-- The next run, which may draw another password.
reload :
    (generated other : Bytes) (n : ℕ) (c : AppConfig)
    → is_empty c.config_path ≡ false
    → is_empty generated ≡ false
    → c.devices ≡ []
    → c.server_port ≡ pos n
    → n < 2 ^ 31
    → Storable (to_string c.server_port)
    → Storable c.server_user
    → Storable generated
    → load_config other (save_config (drawn generated c)) c ≡ (drawn generated c, none)
unfolding load_config
reload generated other n c hc hg hd hp hn sp su sg =
    let same_port : atoi (to_string c.server_port) ≡ c.server_port =
      ap (λ p. atoi (to_string p)) hp ∙ atoi-to_string n hn ∙ sym hp in
    rw
      (
        saved_lines generated n c hc hd su.no_nul sg.no_nul,
        load_config,
        hc,
        load_four c.server_mode (to_string c.server_port) c.server_user generated c sp su sg,
        same_port,
        hd,
        hg,
      )
      refl

or_default_set :
    (path dir name : Bytes) (n : ℕ) → is_empty (or_default path (dir ++ (n ∷ name))) ≡ false
unfolding or_default
or_default_set [] [] name n = refl
or_default_set [] (d ∷ dir) name n = refl
or_default_set (p ∷ path) dir name n = refl

-- A first run, that is without a file, and without devices among the arguments: finalize_paths takes
-- the drawn password and saves the configuration; the next run with the same arguments, whatever
-- password it would draw, comes to the same configuration, with the password of the first run, and
-- saves nothing. The port is a number of an int that is not negative, and it, the user and the
-- drawn password, which is not empty, are texts that a line of the file can hold.
pub finalize_paths_again :
    (generated other dir : Bytes) (files : Bytes → Option Bytes) (n : ℕ) (c : AppConfig)
    → files (with_paths dir c).config_path ≡ none
    → is_empty generated ≡ false
    → c.devices ≡ []
    → c.server_port ≡ pos n
    → n < 2 ^ 31
    → Storable (to_string c.server_port)
    → Storable c.server_user
    → Storable generated
    → let (first, saved) = finalize_paths generated dir files c in
      (first ≡ drawn generated (with_paths dir c))
      × (finalize_paths other dir (λ path. saved) c ≡ (first, none))
unfolding finalize_paths with_paths
finalize_paths_again generated other dir files n c hf hg hd hp hn sp su sg =
    let c' : AppConfig = with_paths dir c in
    let hc : is_empty c'.config_path ≡ false =
      or_default_set c.config_path dir (codes "config.txt") b'/' in
    let first : load_config generated (files c'.config_path) c'
        ≡ (drawn generated c', save_config (drawn generated c')) =
      first_load generated (files c'.config_path) c' hc hf in
    rw (finalize_paths, first) (refl, reload generated other n c' hc hg hd hp hn sp su sg)
