-- ===== src/Drivers/Device/Tests.antt =====
-- Runs of the list of devices, and its theorem at a concrete state.
use etaos.Prelude.{ℕ, ◌≡◌, refl, Bool, true, false, Option, none, some, List, [], ◌∷◌, ◌++◌, ◌==◌}
use etaos.Fs.Dir.{Dirent, vfs_find_file, done}
use etaos.Drivers.Device.{Devices, zeroed, dev_path, device_create, dev_get_by_name, dev_release}
use etaos.Drivers.Device.Names.{dev}

-- "spi" and "rtc"
abbrev spi : List ℕ
spi = 115 ∷ 112 ∷ 105 ∷ []

abbrev rtc : List ℕ
rtc = 114 ∷ 116 ∷ 99 ∷ []

-- The directories "/" and "/dev".
abbrev root_or : Bool → Dirent
root_or true = record { name = 47 ∷ []; parent = none; children = 1 ∷ []; files = []; fs = none }
root_or false = record { name = dev; parent = some 0; children = []; files = 4 ∷ []; fs = none }

-- The device 4 is called "spi".
abbrev devices : Devices
devices = record {
  dev_root = 4 ∷ [];
  devices = λ d. zeroed (some spi);
  vfs = record { dirents = λ a. root_or (a == 0); filename = λ f. spi; next = 2 };
}

abbrev after : Option (Option ℕ × Devices) → Devices
after none = devices
after (some (d, s)) = s

abbrev named : List ℕ → Devices
unfolding device_create
named n = after (device_create (some 5) (some n) none (some 9) devices)

created_finds : dev_get_by_name rtc (named rtc) ≡ some 5
unfolding dev_get_by_name device_create
created_finds = refl

-- A name that is taken: the list stays.
taken_stays : (named spi).dev_root ≡ 4 ∷ []
unfolding device_create
taken_stays = refl

-- The file of a device that is released stays in "/dev".
released_stays :
    (vfs_find_file (dev_path ++ 47 ∷ spi) (dev_release 4 devices).vfs ≡ done 4)
    × ((dev_release 4 devices).dev_root ≡ [])
unfolding vfs_find_file dev_release
released_stays = (refl, refl)
