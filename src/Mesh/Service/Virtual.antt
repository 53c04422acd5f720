-- ===== src/Mesh/Service/Virtual.antt =====
-- The devices behind a server (VirtualDevice of src/mesh/mesh_service.h): update_virtual_devices,
-- virtual_stream_for and virtual_original_for of src/mesh/mesh_service.cpp. `virtual_devices_` is
-- the list of its entries, in the order of their ids.
use fmesh_cli.Common.{
  ℕ, true, false, List, [], ◌∷◌, Option, none, some, Bytes, ◌=?◌, =?_refl, =?→eq, ◌≡◌, refl, ap,
  ◌∙◌, sym, if◌then◌else◌, Bool-cases, inl, inr, arith, before,
}

pub record VirtualDevice : Type 0 where
  pub id : Bytes
  pub original_id : Bytes
  pub stream_id : Bytes
  pub node_num : ℕ

-- `virtual_devices_[vd.id] = vd`
unfoldable pub assign : VirtualDevice → List VirtualDevice → List VirtualDevice
unfolding before
assign vd [] = vd ∷ []
assign vd (d ∷ ds) =
    let rest = assign vd ds in
    if d.id =? vd.id then vd ∷ ds else if before vd.id d.id then vd ∷ d ∷ ds else d ∷ rest

unfoldable pub find_device : Bytes → List VirtualDevice → Option VirtualDevice
find_device device_id [] = none
find_device device_id (d ∷ ds) = if d.id =? device_id then some d else find_device device_id ds

unfoldable pub virtual_stream_for : Bytes → List VirtualDevice → Bytes
unfolding find_device
virtual_stream_for device_id ds = elim (find_device device_id ds) [
  | none ↦ []
  | some d ↦ d.stream_id
]

unfoldable pub virtual_original_for : Bytes → List VirtualDevice → Bytes
unfolding find_device
virtual_original_for device_id ds = elim (find_device device_id ds) [
  | none ↦ []
  | some d ↦ d.original_id
]

-- Those of the stream go.
unfoldable pub without : Bytes → List VirtualDevice → List VirtualDevice
without stream_id [] = []
without stream_id (d ∷ ds) =
    let rest = without stream_id ds in if d.stream_id =? stream_id then rest else d ∷ rest

unfoldable pub assign_all : List VirtualDevice → List VirtualDevice → List VirtualDevice
unfolding assign
assign_all [] ds = ds
assign_all (vd ∷ vds) ds = assign_all vds (assign vd ds)

unfoldable pub update_virtual_devices :
    Bytes → List VirtualDevice → List VirtualDevice → List VirtualDevice
unfolding without assign_all
update_virtual_devices stream_id vdevs ds = assign_all vdevs (without stream_id ds)

-- The last of the devices with an id.
unfoldable pub newest : Bytes → List VirtualDevice → Option VirtualDevice
newest device_id [] = none
newest device_id (vd ∷ vds) = elim (newest device_id vds) [
  | some d ↦ some d
  | none ↦ (if vd.id =? device_id then some vd else none)
]

unfoldable pub or_else : Option VirtualDevice → Option VirtualDevice → Option VirtualDevice
or_else none b = b
or_else (some a) b = some a

-- A device that is not of the stream.
unfoldable pub of_another : Bytes → Option VirtualDevice → Option VirtualDevice
of_another stream_id none = none
of_another stream_id (some d) = if d.stream_id =? stream_id then none else some d

-- No id stands twice, as in every map.
abbrev pub OnceEach : List VirtualDevice → Type 0
OnceEach [] = Unit {0}
OnceEach (d ∷ ds) = (find_device d.id ds ≡ none) × OnceEach ds

one_id : (a b c : Bytes) → (a =? b) ≡ false → (a =? c) ≡ true → (b =? c) ≡ false
one_id a b c h k = elim (Bool-cases (b =? c)) [
  | inl e ↦ absurd (cc (ap (λ x. x =? b) (=?→eq a c k ∙ sym (=?→eq b c e)), =?_refl b, h))
  | inr e ↦ e
]

find_device-assign :
    (device_id : Bytes) (vd : VirtualDevice) (ds : List VirtualDevice)
    → find_device device_id (assign vd ds)
      ≡ (if vd.id =? device_id then some vd else find_device device_id ds)
unfolding find_device assign
find_device-assign device_id vd [] = refl
find_device-assign device_id vd (d ∷ ds) = elim (Bool-cases (d.id =? vd.id)) [
  | inl e ↦ ground (arith, ap (λ x. x =? device_id) (=?→eq d.id vd.id e))
  | inr e ↦ elim (Bool-cases (before vd.id d.id)) [
    | inl f ↦ ground (arith, one_id d.id vd.id device_id e)
    | inr f ↦ ground (arith, find_device-assign device_id vd ds, one_id d.id vd.id device_id e)
  ]
]

find_device-assign_all :
    (device_id : Bytes) (vds ds : List VirtualDevice)
    → find_device device_id (assign_all vds ds)
      ≡ or_else (newest device_id vds) (find_device device_id ds)
unfolding assign_all newest or_else
find_device-assign_all device_id [] ds = refl
find_device-assign_all device_id (vd ∷ vds) ds =
    ground (
      arith,
      find_device-assign_all device_id vds (assign vd ds),
      find_device-assign device_id vd ds,
    )

find_device-without :
    (device_id stream_id : Bytes) (ds : List VirtualDevice)
    → OnceEach ds
    → find_device device_id (without stream_id ds) ≡ of_another stream_id (find_device device_id ds)
unfolding find_device without of_another
find_device-without device_id stream_id [] u = refl
find_device-without device_id stream_id (d ∷ ds) u = elim (Bool-cases (d.id =? device_id)) [
  | inl e ↦
      let gone : find_device device_id ds ≡ none =
        ap (λ x. find_device x ds) (sym (=?→eq d.id device_id e)) ∙ u.0 in
      ground (arith, find_device-without device_id stream_id ds u.1, gone)
  | inr e ↦ ground (arith, find_device-without device_id stream_id ds u.1)
]

-- If no id stands twice in the devices before, then after an update of a stream's devices every id
-- stands for the last of them with it; an id that none of them has stands for the device that it
-- stood for before, if that is of another stream, and else for none.
pub update_virtual_devices_fresh :
    (device_id stream_id : Bytes) (vdevs ds : List VirtualDevice)
    → OnceEach ds
    → find_device device_id (update_virtual_devices stream_id vdevs ds)
      ≡ or_else (newest device_id vdevs) (of_another stream_id (find_device device_id ds))
unfolding update_virtual_devices
update_virtual_devices_fresh device_id stream_id vdevs ds u =
    find_device-assign_all device_id vdevs (without stream_id ds)
    ∙ ap (or_else (newest device_id vdevs)) (find_device-without device_id stream_id ds u)
