-- ===== src/Drivers/Device.antt =====
-- drivers/core/core.c: the list of devices and their names. A device is its address, and so is the file in it,
-- whose index, length and locks are left out; and so are the functions that wait for a device.
pub mod Names
mod Tests
use etaos.Prelude.{
  ℕ, Bool, true, false, Option, none, some, List, [], ◌∷◌, if◌then◌else◌, ◌==◌, keep,
}
use etaos.Drivers.{Rc, eok, einval, succeeded}
use etaos.Crt.Strings.{same}
use etaos.Fs.Dir.{Vfs, Outcome, done, failed, strayed, vfs_add_file, mkdir, mount}

-- `struct device`, with the functions of its file by the address of their `struct dev_file_ops`.
pub record Device : Type 0 where
  pub name : Option (List ℕ)
  pub fops : Option ℕ
  pub dev_data : Option ℕ
  pub pdev : Option ℕ

-- `dev_root`, what stands at the addresses, and the directories.
pub record Devices : Type 0 where
  pub dev_root : List ℕ
  pub devices : ℕ → Device
  pub vfs : Vfs

-- "/dev"
abbrev pub dev_path : List ℕ
dev_path = 47 ∷ 100 ∷ 101 ∷ 118 ∷ []

-- A store into the device at an address.
abbrev pub on_device : ℕ → (Device → Device) → Devices → Devices
on_device d g s = record s { devices = λ e. if e == d then g (s.devices e) else s.devices e }

-- A call whose result is not used: a failure changes nothing, and `none` is a search that strays.
abbrev pub unless_strayed : Vfs → Outcome Vfs → Option Vfs
unless_strayed v (done v') = some v'
unless_strayed v failed = some v
unless_strayed v strayed = none

abbrev pub mounted : ℕ → Option Vfs → Option Vfs
unfolding mount
mounted devfs none = none
mounted devfs (some v) = unless_strayed v (mount devfs dev_path v)

-- `dev_core_init`, with the file system `devfs`.
unfoldable pub dev_core_init : ℕ → Devices → Option Devices
unfolding mkdir mounted
dev_core_init devfs s = elim (mounted devfs (unless_strayed s.vfs (mkdir dev_path s.vfs))) [
  | none ↦ none
  | some v ↦ some (record s { dev_root = []; vfs = v })
]

-- `dev_release` of a device in the list; the file stays in its directory.
abbrev pub without : ℕ → List ℕ → List ℕ
without d [] = []
without d (x ∷ xs) = let rest = without d xs in if x == d then xs else x ∷ rest

unfoldable pub dev_release : ℕ → Devices → Devices
dev_release d s = record s { dev_root = without d s.dev_root }

-- `!strcmp` of a name and the name of a device in the list, which has one.
abbrev pub has_name : List ℕ → Option (List ℕ) → Bool
unfolding same
has_name n none = false
has_name n (some m) = same n m

unfoldable pub dev_name_is_unique : (ℕ → Device) → List ℕ → List ℕ → Rc
dev_name_is_unique devices n [] = eok
dev_name_is_unique devices n (d ∷ ds) =
    let rest = dev_name_is_unique devices n ds in
    if has_name n (devices d).name then einval else rest

-- `_dev_set_fops`; without functions it fails, and the file keeps what it has.
abbrev pub with_fops : Option ℕ → Device → Device
with_fops none d = d
with_fops (some f) d = record d { fops = some f }

unfoldable pub dev_set_fops : ℕ → Option ℕ → Devices → Rc × Devices
dev_set_fops d fops s = (eok, on_device d (with_fops fops) s)

-- `device_initialize` of a device with a name that is unique: its file gets the name.
abbrev pub file_named : ℕ → List ℕ → Vfs → Vfs
file_named d n v = record v { filename = λ f. if f == d then n else v.filename f }

abbrev pub in_list : ℕ → Option ℕ → Devices → Option Vfs → Option (Rc × Devices)
in_list d fops s none = none
in_list d fops s (some v) =
    some (eok, record (on_device d (with_fops fops) s) { dev_root = d ∷ s.dev_root; vfs = v })

unfoldable pub enlist : ℕ → Option ℕ → List ℕ → Devices → Option (Rc × Devices)
unfolding vfs_add_file
enlist d fops n s =
    let v = file_named d n s.vfs in in_list d fops s (unless_strayed v (vfs_add_file dev_path d v))

abbrev pub with_name :
    Option (List ℕ) → Devices → (List ℕ → Option (Rc × Devices)) → Option (Rc × Devices)
with_name none s f = some (einval, s)
with_name (some n) s f = f n

-- `device_initialize`. `none` is the search of "/dev" that strays.
unfoldable pub device_initialize : ℕ → Option ℕ → Devices → Option (Rc × Devices)
unfolding dev_name_is_unique enlist
device_initialize d fops s = with_name (s.devices d).name s λ n.
    let unique = dev_name_is_unique s.devices n s.dev_root in
    let listed = enlist d fops n s in if succeeded unique then listed else some (unique, s)

abbrev pub zeroed : Option (List ℕ) → Device
zeroed name = record { name = name; fops = none; dev_data = none; pdev = none }

-- `dev_allocate`, by the address that `kzalloc` gives; the error of `device_initialize` is not used.
abbrev pub allocated : ℕ → Option (Rc × Devices) → Option (Option ℕ × Devices)
allocated d none = none
allocated d (some (rc, s)) = some (some d, s)

unfoldable pub dev_allocate :
    Option ℕ → Option (List ℕ) → Option ℕ → Devices → Option (Option ℕ × Devices)
unfolding device_initialize
dev_allocate none name fops s = some (none, s)
dev_allocate (some d) name fops s =
    allocated d (device_initialize d fops (on_device d (λ _. zeroed name) s))

abbrev pub with_data : Option ℕ → Option (Option ℕ × Devices) → Option (Option ℕ × Devices)
with_data dat none = none
with_data dat (some (none, s)) = some (none, s)
with_data dat (some (some d, s)) = some (some d, on_device d (λ x. record x { dev_data = dat }) s)

unfoldable pub device_create :
    Option ℕ → Option (List ℕ) → Option ℕ → Option ℕ → Devices → Option (Option ℕ × Devices)
unfolding dev_allocate
device_create address name dat fops s = with_data dat (dev_allocate address name fops s)

-- `dev_get_by_name`
unfoldable pub find_device : (ℕ → Device) → List ℕ → List ℕ → Option ℕ
find_device devices n [] = none
find_device devices n (d ∷ ds) =
    let rest = find_device devices n ds in if has_name n (devices d).name then some d else rest

unfoldable pub dev_get_by_name : List ℕ → Devices → Option ℕ
unfolding find_device
dev_get_by_name n s = find_device s.devices n s.dev_root

-- `dev_register_pdev` of a platform device by its address and its name. `none` is a store into a device
-- that could not be allocated, too.
abbrev pub with_pdev : ℕ → Option (Option ℕ × Devices) → Option (Rc × Devices)
with_pdev pdev none = none
with_pdev pdev (some (none, s)) = none
with_pdev pdev (some (some d, s)) = some (eok, on_device d (λ x. record x { pdev = some pdev }) s)

unfoldable pub dev_register_pdev :
    Option ℕ → Option (ℕ × Option (List ℕ)) → Option ℕ → Devices → Option (Rc × Devices)
unfolding dev_allocate
dev_register_pdev address none fops s = some (einval, s)
dev_register_pdev address (some (pdev, none)) fops s = some (einval, s)
dev_register_pdev address (some (pdev, some n)) fops s =
    with_pdev pdev (dev_allocate address (some n) fops s)
