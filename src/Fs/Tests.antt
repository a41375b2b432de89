-- ===== src/Fs/Tests.antt =====
-- Runs of the file systems' functions, and their theorems at concrete states.
use etaos.Prelude.{
  ℕ, ◌<◌, ◌≡◌, ◌≢◌, ◌↔◌, refl, Bool, true, false, Option, none, some, List, [], ◌∷◌, ◌++◌,
  if◌then◌else◌, ◌==◌, arith, All, sym, subst, ℕ_discrete, inl, inr, take, leb,
}
use etaos.Fs.Path.{split_path}
use etaos.Fs.Path.Parts.{or_root}
use etaos.Fs.Path.Split.{path_of}
use etaos.Fs.Dir.{
  failed, Dirent, Vfs, found, missing, stray, dirent_find, mkdir, done, vfs_add_file, vfs_find_file,
  unlink,
}
use etaos.Crt.Strings.Compare.{IsString}
use etaos.Fs.Dir.Tree.{IsEntry, Leads, WellFormed}
use etaos.Fs.Dir.Find.{dirent_find-Leads}
use etaos.Fs.Dir.Make.{dirent_find-mkdir}
use etaos.Fs.Dir.File.{vfs_find_file-vfs_add_file}
use etaos.Fs.Ram.{Blocks, File, ramfs_create}
use etaos.Fs.Iob.{write, read, moved, Driver, Files, opened, vfs_open, vfs_close}
use etaos.Fs.Rom.{RomFile, RomOpened, romfs_open, romfs_setup_file}
use etaos.Fs.Disk.{Disk, ramfs}
use etaos.Fs.Disk.Session.{read-vfs_open}
use etaos.Fs.Iob.Slots.{FirstFree}
use etaos.Fs.Iob.Open.{vfs_close-vfs_open}

-- "usr", "bin" and "log"
abbrev usr : List ℕ
usr = 117 ∷ 115 ∷ 114 ∷ []

abbrev bin : List ℕ
bin = 98 ∷ 105 ∷ 110 ∷ []

abbrev log : List ℕ
log = 108 ∷ 111 ∷ 103 ∷ []

-- "/usr//bin/"
split_runs : split_path ((47 ∷ usr) ++ (47 ∷ 47 ∷ bin) ++ (47 ∷ [])) ≡ usr ∷ bin ∷ []
unfolding split_path
split_runs = refl

-- The directories "/", "/usr" and "/bin", and the file 0 with the name "log".
abbrev directory : List ℕ → List ℕ → Dirent
directory name children = record {
  name = name;
  parent = none;
  children = children;
  files = [];
  fs = some 0;
}

abbrev which : Bool → Bool → Dirent
which true b = directory (47 ∷ []) (2 ∷ 1 ∷ [])
which false true = directory usr []
which false false = directory bin []

abbrev vfs : Vfs
vfs = record { dirents = λ a. which (a == 0) (a == 1); filename = λ f. log; next = 3 }

find_runs : dirent_find vfs 0 (path_of (usr ∷ [])) ≡ found 1
unfolding dirent_find
find_runs = refl

-- A name that no child of the root has, and one below a directory without children.
find_strays : dirent_find vfs 0 (path_of (log ∷ [])) ≡ stray
unfolding dirent_find
find_strays = refl

find_misses : dirent_find vfs 0 (path_of (usr ∷ log ∷ [])) ≡ missing
unfolding dirent_find
find_misses = refl

which-IsString : (b c : Bool) → IsString (which b c).name
which-IsString true b = ground arith
which-IsString false true = ground arith
which-IsString false false = ground arith

which_later : (a : ℕ) (c : Bool) → All (λ x. (a < x) × (x < 3)) (which (a == 0) c).children
which_later a c = elim (ℕ_discrete a 0) [
  | yes e ↦
      subst (λ b. All (λ x. (b < x) × (x < 3)) (which (b == 0) c).children) (sym e) (ground arith)
  | no ne ↦
      let other : (a == 0) ≡ false = ground arith in
      subst (λ b. All (λ x. (a < x) × (x < 3)) (which b c).children) (sym other) (leaf c)
]
  where
    leaf : (c : Bool) → All (λ x. (a < x) × (x < 3)) (which false c).children
    leaf true = tt
    leaf false = tt

vfs-WellFormed : WellFormed vfs
vfs-WellFormed = record {
  root_name = refl;
  root_made = omega arith;
  names = λ a. which-IsString (a == 0) (a == 1);
  filenames = λ f. ground arith;
  later = λ a. which_later a (a == 1);
}

usr-Leads : Leads vfs.dirents (usr ∷ []) 0 1
usr-Leads = (1, inr (λ e. ground arith, inl (refl, refl)), refl)

usr-IsEntry : All IsEntry (usr ∷ [])
usr-IsEntry = ground arith

dirent_find-Leads_example :
    (dirent_find vfs 0 (path_of (usr ∷ [])) ≡ found 1) ↔ Leads vfs.dirents (usr ∷ []) 0 1
dirent_find-Leads_example = dirent_find-Leads vfs usr [] 1 vfs-WellFormed usr-IsEntry

dirent_find-mkdir_example :
    (v' : Vfs) × (mkdir (path_of (usr ∷ bin ∷ [])) vfs ≡ done v')
    × (dirent_find v' 0 (path_of (usr ∷ bin ∷ [])) ≡ found 3)
    × WellFormed v'
dirent_find-mkdir_example =
    dirent_find-mkdir vfs (usr ∷ []) bin 1 vfs-WellFormed (ground arith) usr-Leads

no_files : (b c : Bool) → All (λ g. g ≢ 7) (which b c).files
no_files true c = tt
no_files false true = tt
no_files false false = tt

vfs_find_file-vfs_add_file_example :
    (v' : Vfs) × (vfs_add_file (or_root (path_of (usr ∷ []))) 7 vfs ≡ done v')
    × (vfs_find_file (path_of (usr ∷ log ∷ [])) v' ≡ done 7)
    × (unlink (path_of (usr ∷ log ∷ [])) v' ≡ done vfs)
    × WellFormed v'
    × Leads v'.dirents (usr ∷ []) 0 1
vfs_find_file-vfs_add_file_example =
    vfs_find_file-vfs_add_file vfs (usr ∷ []) 1 7 vfs-WellFormed (ground arith) usr-Leads
      (λ a. no_files (a == 0) (a == 1))

abbrev file : File
unfolding ramfs_create
file = ramfs_create log

-- Files that open without an error, above the directories with the file 7 in "/".
abbrev driver : Driver Vfs
driver = record {
  vfs = λ v. v;
  file_open = λ f mode v. (0, v);
  file_close = λ f v. v;
  fs_open = λ fs path mode v. (none, v);
  file_write = λ f b v. none;
  file_read = λ f n v. none;
}

abbrev with_log : Vfs
with_log = record vfs {
  dirents =
      λ a. if a == 0 then record (directory (47 ∷ []) []) { files = 7 ∷ [] } else vfs.dirents a;
}

-- Of the places the first one, 3, is taken, or all of them.
abbrev files : Option ℕ → Files Vfs
files later = record {
  iob = λ i. if i == 3 then some 5 else later;
  fd = λ f. 0;
  flags = λ f. 0;
  state = with_log;
}

log_there : vfs_find_file (47 ∷ log) with_log ≡ done 7
unfolding vfs_find_file
log_there = refl

vfs_close-vfs_open_example :
    let (r, t') = vfs_open driver (47 ∷ log) 6 (files none) in
    (i : ℕ) × FirstFree (files none).iob 3 21 i
    × (r ≡ opened i)
    × (t'.iob i ≡ some 7)
    × (t'.flags 7 ≡ 6)
    × ((vfs_close driver i t').iob ≡ (files none).iob)
    × ((vfs_close driver i t').fd 7 ≡ 0)
    × ((vfs_close driver i t').flags 7 ≡ 0)
vfs_close-vfs_open_example =
    vfs_close-vfs_open driver (47 ∷ log) 6 7 (files none) with_log log_there refl 4 (omega arith)
      (omega arith) refl

abbrev disk : Disk
disk = record { vfs = vfs; ram = λ f. file; next_file = 9 }

-- A heap with blocks of up to 400 bytes, and nodes of two bytes more.
abbrev blocks : Blocks
blocks = record { enough = λ n. leb n 400; behind = λ old. 0 ∷ 0 ∷ [] }

abbrev on_disk : Files Disk
on_disk = record { iob = λ i. none; fd = λ f. 0; flags = λ f. 0; state = disk }

no_log : vfs_find_file (path_of (usr ∷ log ∷ [])) vfs ≡ failed
unfolding vfs_find_file
no_log = refl

read-vfs_open_example :
    (i : ℕ) × (t₁ t₂ t₃ : Files Disk) × (vfs_open
        (ramfs blocks)
        (path_of (usr ∷ log ∷ []))
        3
        on_disk
      ≡ (opened i, t₁))
    × (write (ramfs blocks) i bin t₁ ≡ moved (3, t₂))
    × (read (ramfs blocks) i 3 t₂ ≡ moved (3, take 64 bin, t₃))
read-vfs_open_example =
    read-vfs_open blocks (usr ∷ []) log 1 0 3 on_disk vfs-WellFormed (ground arith) usr-Leads refl
      no_log bin 3 (omega arith) refl refl refl (omega arith) (omega arith) refl

-- An open file of five bytes.
abbrev rom : RomFile
rom = record {
  name = log;
  contents = some (1 ∷ 2 ∷ 3 ∷ 4 ∷ 5 ∷ []);
  length = 5;
  index = 0;
  uses = 1;
}

rom_opens :
    romfs_open (some (1 ∷ 2 ∷ 3 ∷ 4 ∷ 5 ∷ 0 ∷ [])) (romfs_setup_file log 6)
    ≡ (RomOpened.opened, rom)
unfolding romfs_open romfs_setup_file
rom_opens = refl
