-- ===== src/Tui/WindowManager/Routing.antt =====
-- The operations of src/tui/window_manager.cpp that find or make the window of a channel, of a
-- direct chat or of a device and write into it.
use fmesh_cli.Common.{
  ℕ, suc, Bool, ◌&&◌, ◌||◌, not, List, [], ◌∷◌, ◌++◌, Option, none, some, Bytes, codes, length,
  get_or, leb, ◌==◌, ◌=?◌, if◌then◌else◌, put_key, lookup_key, erase_key,
}
use fmesh_cli.App.Config.Spec.{is_empty}
use fmesh_cli.Tui.Window.{WindowTarget, Window, new}
use fmesh_cli.Tui.Signal.{Platform, Service}
use fmesh_cli.Tui.WindowManager.{
  WindowManager, key_of, on_window, set_title, set_target, add_window,
}
use fmesh_cli.Tui.WindowManager.History.{channel_title, dm_title, load_history}

-- The number and the device of the first window of a kind and a target, from number `i` on.
unfoldable pub first_with : Bytes → ℕ → ℕ → List Window → Option (ℕ × Bytes)
first_with kind target i [] = none
first_with kind target i (w ∷ ws) =
    if w.target.kind =? kind && w.target.target == target
    then some (i, w.target.device)
    else first_with kind target (suc i) ws

-- Window `i` goes from one key to another.
unfoldable pub rekey : ℕ → Bytes → WindowTarget → (Window → Window) → WindowManager → WindowManager
unfolding key_of on_window set_target put_key erase_key
rekey i old_device t retitle m =
    on_window i (λ w. retitle (set_target t w))
      record m {
        by_key =
            put_key (key_of t.device t.kind t.target) i
              (erase_key (key_of old_device t.kind t.target) m.by_key);
      }

unfoldable pub set_title_if : Bool → Bytes → Window → Window
unfolding set_title
set_title_if b title w = if b then set_title title w else w

-- The target has no key yet: the window of the target without a device, or else of the same target
-- on another device, is taken over; else there is a new one.
unfoldable pub ensure_other :
    Platform → Service → WindowTarget → Bool → Bytes → WindowManager → WindowManager × ℕ
unfolding key_of first_with rekey set_title_if load_history add_window new
ensure_other p service t named title m = elim (lookup_key (key_of [] t.kind t.target) m.by_key) [
  | some i ↦ (load_history p service i (rekey i [] t (set_title_if named title) m), i)
  | none ↦ elim (first_with t.kind t.target 1 m.windows) [
    | some found ↦ (
      load_history p service found.0 (rekey found.0 found.1 t (set_title_if named title) m),
      found.0,
    )
    | none ↦ let (m', i) = add_window (new t title) m in (load_history p service i m', i)
  ]
]

unfoldable pub ensure_channel :
    Platform → Service → Bytes → ℕ → Bytes → WindowManager → WindowManager × ℕ
unfolding key_of on_window set_title_if channel_title load_history ensure_other
ensure_channel p service device idx name m =
    let title = channel_title service device idx name in
    elim (lookup_key (key_of device (codes "channel") idx) m.by_key) [
      | some i ↦
          (load_history p service i (on_window i (set_title_if (not (is_empty name)) title) m), i)
      | none ↦
          ensure_other p service (record { device = device; kind = codes "channel"; target = idx })
            (not (is_empty name)) title m
    ]

unfoldable pub is_placeholder : Bytes → Bool
is_placeholder title = is_empty title || (get_or title 0 0 == b'!' || get_or title 0 0 == b'?')

-- The title follows the nick, if it does not go from a real name to a placeholder.
unfoldable pub renamed_to : Bytes → Bytes → Window → Window
unfolding set_title_if is_placeholder
renamed_to nick title w =
    set_title_if
      (not (is_empty nick)
        && (not (w.title =? title)
            && (is_placeholder w.title
                || not (leb (length nick) 1 && (is_empty nick || get_or nick 0 0 == b'?')))))
      title w

unfoldable pub ensure_dm :
    Platform → Service → Bytes → ℕ → Bytes → WindowManager → WindowManager × ℕ
unfolding key_of on_window renamed_to dm_title load_history ensure_other
ensure_dm p service device peer_node nick m =
    let title = dm_title service device peer_node nick in
    elim (lookup_key (key_of device (codes "dm") peer_node) m.by_key) [
      | some i ↦ (load_history p service i (on_window i (renamed_to nick title) m), i)
      | none ↦
          ensure_other p service (record { device = device; kind = codes "dm"; target = peer_node })
            (not (is_empty nick)) title m
    ]

-- `name` being not empty, the window of the key gets the title.
unfoldable pub retitle_key : Bytes → Bytes → Bytes → WindowManager → WindowManager
unfolding on_window set_title
retitle_key name key title m =
    if is_empty name
    then m
    else elim (lookup_key key m.by_key) [ none ↦ m | some i ↦ on_window i (set_title title) m ]

unfoldable pub update_channel_name : Service → Bytes → ℕ → Bytes → WindowManager → WindowManager
unfolding retitle_key key_of channel_title
update_channel_name service device idx name m =
    retitle_key name (key_of device (codes "channel") idx) (channel_title service device idx name) m

unfoldable pub update_dm_nick : Service → Bytes → ℕ → Bytes → WindowManager → WindowManager
unfolding retitle_key key_of dm_title
update_dm_nick service device peer_node nick m =
    retitle_key nick (key_of device (codes "dm") peer_node) (dm_title service device peer_node nick)
      m

unfoldable pub ensure_raw : Bytes → WindowManager → WindowManager × ℕ
unfolding key_of add_window new
ensure_raw device m = elim (lookup_key (key_of device (codes "raw") 0) m.by_key) [
  | some i ↦ (m, i)
  | none ↦
      add_window (new (record { device = device; kind = codes "raw"; target = 0 }) (codes "raw")) m
]

-- The number and the device of the first list of nodes, from number `i` on.
unfoldable pub first_of_kind : Bytes → ℕ → List Window → Option (ℕ × Bytes)
first_of_kind kind i [] = none
first_of_kind kind i (w ∷ ws) =
    if w.target.kind =? kind then some (i, w.target.device) else first_of_kind kind (suc i) ws

unfoldable pub ensure_nodelist : Service → Bytes → WindowManager → WindowManager × ℕ
unfolding key_of first_of_kind rekey set_title add_window new
ensure_nodelist service device m =
    let t : WindowTarget = record { device = device; kind = codes "nodelist"; target = 0 } in
    let dname = service.display_name_for device in
    let title = (if is_empty dname then codes "Nodes" else codes "Nodes " ++ dname) in
    elim (lookup_key (key_of device (codes "nodelist") 0) m.by_key) [
      | some i ↦ (m, i)
      | none ↦ elim (first_of_kind (codes "nodelist") 1 m.windows) [
        | some found ↦ (rekey found.0 found.1 t (set_title title) m, found.0)
        | none ↦ add_window (new t title) m
      ]
    ]
