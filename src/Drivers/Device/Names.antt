-- ===== src/Drivers/Device/Names.antt =====
-- The names in the list of devices of drivers/core/core.c.
use etaos.Prelude.{ℕ, ◌≡◌, ◌≢◌, Option, none, some, List, [], ◌∷◌, All, if◌then◌else◌}
use etaos.Crt.Strings.Compare.{IsString}
use etaos.Fs.Dir.{Vfs, vfs_root}
use etaos.Fs.Dir.Tree.{IsEntry, Leads, WellFormed}
use etaos.Fs.Dir.File.{Unlisted}
use etaos.Drivers.{Rc, succeeded}
use etaos.Drivers.Device.{Device, Devices, on_device, with_fops, enlist, zeroed}

abbrev pub dev : List ℕ
dev = 100 ∷ 101 ∷ 118 ∷ []

-- Every device in the list has a name, a string that no other one has.
abbrev pub Unique : (ℕ → Device) → List ℕ → Type 0
Unique ds [] = Unit
Unique ds (d ∷ xs) =
    (n : List ℕ) × ((ds d).name ≡ some n)
    × IsString n
    × All (λ e. (ds e).name ≢ some n) xs
    × Unique ds xs

-- None of the devices has the name.
abbrev pub Free : (ℕ → Device) → List ℕ → List ℕ → Type 0
Free ds n xs = All (λ e. (ds e).name ≢ some n) xs

-- Only names count.
module _ (ds es : ℕ → Device) where
  abbrev Same : List ℕ → Type 0
  Same xs = All (λ e. (ds e).name ≡ (es e).name) xs

-- The device that was found before, or else the new one.
abbrev pub or_new : ℕ → Option ℕ → ℕ
or_new d none = d
or_new d (some e) = e

module _ (d p : ℕ) (n : List ℕ) (dat fops : Option ℕ) (s : Devices) (w : WellFormed s.vfs)
    (l : Leads s.vfs.dirents (dev ∷ []) vfs_root p) (i : IsEntry n)
    (u : Unique s.devices s.dev_root) (fresh : All (λ e. e ≢ d) s.dev_root)
    (apart : Unlisted s.vfs d) where
  abbrev started : Devices
  started = on_device d (λ _. zeroed (some n)) s

  abbrev listed : Vfs → Devices
  listed v = record (on_device d (with_fops fops) started) { dev_root = d ∷ s.dev_root; vfs = v }

  abbrev ended : Vfs → Devices
  ended v = on_device d (λ x. record x { dev_data = dat }) (listed v)

  -- What follows the test of the name.
  abbrev answer : Rc → List ℕ → Option (Rc × Devices)
  unfolding enlist
  answer rc m =
      let added = enlist d fops m started in if succeeded rc then added else some (rc, started)

  -- The device with a name that is taken, which stands in no list.
  abbrev outside : Devices
  outside = on_device d (λ x. record x { dev_data = dat }) started
