-- ===== src/Fs/Dir.antt =====
-- fs/dirent.c and the directory part of fs/vfs.c, with mkdir.c, mount.c, opendir.c, readdir_r.c and unlink.c of
-- lib/crt: the tree of directories. A directory or a file is its address: the state says what stands there.
-- Memory does not run out, and the lock `vfs_lock` is held throughout each of these functions.
pub mod Tree
pub mod Find
pub mod Make
pub mod File
use etaos.Prelude.{
  keep, ℕ, zero, suc, ◌+◌, Bool, true, false, Option, none, some, List, [], ◌∷◌, if◌then◌else◌,
  ◌==◌, ◌&&◌,
}
use etaos.Crt.Strings.{same}
use etaos.Fs.Path.{basename, basepath, split_path, slash}

-- `struct dirent`; `files` is the list that `file_head` starts.
pub record Dirent : Type 0 where
  pub name : List ℕ
  pub parent : Option ℕ
  pub children : List ℕ
  pub files : List ℕ
  pub fs : Option ℕ

-- The directories, the names of the files, and the address that the next directory gets. `vfs_root`
-- stands at the address zero.
pub record Vfs : Type 0 where
  pub dirents : ℕ → Dirent
  pub filename : ℕ → List ℕ
  pub next : ℕ

abbrev pub vfs_root : ℕ
vfs_root = 0

-- One directory is changed.
abbrev pub change : ℕ → (Dirent → Dirent) → Vfs → Vfs
change a g v = record v { dirents = λ b. if b == a then g (v.dirents b) else v.dirents b }

-- `dirent_create`: the new directory's address, and the state.
unfoldable pub dirent_create : List ℕ → Vfs → ℕ × Vfs
dirent_create name v = (
  v.next,
  record v {
    dirents = λ b.
        if b == v.next
        then record { name = name; parent = none; children = []; files = []; fs = none }
        else v.dirents b;
    next = v.next + 1;
  },
)

-- What `dirent_find` comes to. It strays where the loop over the children leaves a list: `search`
-- is by then the last child, whose own list the loop takes for the end.
pub data Found : Type 0 where
  found : ℕ → Found
  missing stray : Found

-- The loop over the children: the first with the name.
unfoldable pub find_child : (ℕ → Dirent) → List ℕ → List ℕ → Option ℕ
unfolding same
find_child dirents name [] = none
find_child dirents name (c ∷ cs) =
    let rest = find_child dirents name cs in if same (dirents c).name name then some c else rest

-- The loop over the sections of a path, with `search` and the flag `found`.
abbrev pub section : List ℕ → Option ℕ → ℕ → (ℕ → Bool → Found) → Found
section [] child search more = more search false
section (c ∷ cs) none search more = stray
section (c ∷ cs) (some d) search more = more d true

unfoldable pub descend : (ℕ → Dirent) → List (List ℕ) → ℕ → Bool → Found
unfolding find_child
descend dirents [] search ok = if ok then found search else missing
descend dirents (s ∷ ss) search ok =
    let children = (dirents search).children in
    section children (find_child dirents s children) search (λ d b. descend dirents ss d b)

-- `dirent_find`
unfoldable pub dirent_find : Vfs → ℕ → List ℕ → Found
unfolding descend same split_path
dirent_find v root path =
    let searched = descend v.dirents (split_path path) root false in
    if same (v.dirents root).name path then found root else searched

-- `dirent_add_child`
unfoldable pub dirent_add_child : ℕ → ℕ → Vfs → Vfs
dirent_add_child parent child v =
    let inherited = (v.dirents parent).fs in
    change parent (λ d. record d { children = child ∷ d.children })
      (change child (λ d. record d { parent = some parent; fs = inherited }) v)

-- `dirent_add_file` of a file that stands in no directory: the list is linked through the files.
unfoldable pub dirent_add_file : ℕ → ℕ → Vfs → Vfs
dirent_add_file dir file v = change dir (λ d. record d { files = file ∷ d.files }) v

-- `dirent_find_file`
unfoldable pub find_file : (ℕ → List ℕ) → List ℕ → List ℕ → Option ℕ
unfolding same
find_file filename name [] = none
find_file filename name (f ∷ fs) =
    let rest = find_file filename name fs in if same (filename f) name then some f else rest

unfoldable pub dirent_find_file : Vfs → ℕ → List ℕ → Option ℕ
unfolding find_file
dirent_find_file v dir name = find_file v.filename name (v.dirents dir).files

-- `dirent_remove_file`: the list without the file, or `none` if it is not there.
unfoldable pub remove_file : ℕ → List ℕ → Option (List ℕ)
remove_file file [] = none
remove_file file (f ∷ fs) =
    let rest = remove_file file fs in if f == file then some fs else keep f rest

-- What a call comes to: its result, an error code, or a search that strays.
pub data Outcome (A : Type 0) : Type 0 where
  done : A → Outcome A
  failed strayed : Outcome A

abbrev pub with_found : {A : Type 0} → Found → (ℕ → Outcome A) → Outcome A
with_found (found d) f = f d
with_found missing f = failed
with_found stray f = strayed

-- `vfs_add_file`
unfoldable pub vfs_add_file : List ℕ → ℕ → Vfs → Outcome Vfs
unfolding dirent_find dirent_add_file
vfs_add_file path file v =
    with_found (dirent_find v vfs_root path) (λ d. done (dirent_add_file d file v))

-- `mount`
unfoldable pub mount : ℕ → List ℕ → Vfs → Outcome Vfs
unfolding dirent_find
mount fs path v =
    with_found (dirent_find v vfs_root path)
      (λ d. done (change d (λ e. record e { fs = some fs }) v))

-- `vfs_path_to_fs`
abbrev pub fs_of : Vfs → Found → Outcome (Option ℕ)
fs_of v (found d) = done (v.dirents d).fs
fs_of v missing = done none
fs_of v stray = strayed

unfoldable pub vfs_path_to_fs : List ℕ → Vfs → Outcome (Option ℕ)
unfolding dirent_find
vfs_path_to_fs path v = fs_of v (dirent_find v vfs_root path)

-- The two parts of a path; without one of them the functions fail.
abbrev pub with_parts :
    {A : Type 0} → Option (List ℕ) → Option (List ℕ) → (List ℕ → List ℕ → Outcome A) → Outcome A
with_parts none name f = failed
with_parts (some base) none f = failed
with_parts (some base) (some name) f = f base name

-- `mkdir`
unfoldable pub mkdir : List ℕ → Vfs → Outcome Vfs
unfolding basename basepath dirent_find dirent_create dirent_add_child
mkdir path v = with_parts (basepath path) (basename path) λ base name.
    with_found (dirent_find v vfs_root base)
      λ parent. let (dir, v') = dirent_create name v in done (dirent_add_child parent dir v')

-- `vfs_find_file`
abbrev pub or_failed : Option ℕ → Outcome ℕ
or_failed none = failed
or_failed (some f) = done f

unfoldable pub vfs_find_file : List ℕ → Vfs → Outcome ℕ
unfolding basename basepath dirent_find dirent_find_file
vfs_find_file path v = with_parts (basepath path) (basename path) λ base name.
    with_found (dirent_find v vfs_root base) λ dir. or_failed (dirent_find_file v dir name)

-- `unlink`
abbrev pub removed : ℕ → Vfs → Option (List ℕ) → Outcome Vfs
removed dir v none = failed
removed dir v (some files) = done (change dir (λ d. record d { files = files }) v)

abbrev pub unlink_found : ℕ → Vfs → Option ℕ → Outcome Vfs
unlink_found dir v none = failed
unlink_found dir v (some file) = removed dir v (remove_file file (v.dirents dir).files)

unfoldable pub unlink : List ℕ → Vfs → Outcome Vfs
unfolding basename basepath dirent_find dirent_find_file remove_file
unlink path v = with_parts (basepath path) (basename path) λ base name.
    with_found (dirent_find v vfs_root base) λ dir. unlink_found dir v (dirent_find_file v dir name)

-- `readdir_r`: the child behind the entry, or the first one without an entry.
abbrev pub first_child : List ℕ → Option ℕ
first_child [] = none
first_child (c ∷ cs) = some c

unfoldable pub behind_entry : ℕ → List ℕ → Option ℕ
behind_entry entry [] = none
behind_entry entry (c ∷ cs) =
    let rest = behind_entry entry cs in if c == entry then first_child cs else rest

unfoldable pub readdir_r : Vfs → ℕ → Option ℕ → Option ℕ
unfolding behind_entry
readdir_r v dir none = first_child (v.dirents dir).children
readdir_r v dir (some entry) = behind_entry entry (v.dirents dir).children
