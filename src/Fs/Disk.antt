-- ===== src/Fs/Disk.antt =====
-- The file system of fs/ramfs.c as a driver of fs/vfs.c: `struct fs_driver ramfs`, over the directories
-- and the files in memory. A file's address is a number.
pub mod Session
use etaos.Prelude.{
  ℕ, zero, suc, ◌+◌, ◌/◌, ◌%◌, Bool, true, false, Option, none, some, List, [], ◌∷◌, if◌then◌else◌,
  ◌==◌,
}
use etaos.Fs.Path.{basename, basepath}
use etaos.Fs.Dir.{Vfs, Outcome, done, failed, strayed, vfs_add_file}
use etaos.Fs.Ram.{Blocks, File, ramfs_open, ramfs_close, ramfs_write, ramfs_read, ramfs_create}
use etaos.Fs.Iob.{Driver, put}

-- The directories, the files in memory, and the address that the next file gets.
pub record Disk : Type 0 where
  pub vfs : Vfs
  pub ram : ℕ → File
  pub next_file : ℕ

-- STREAM_APPEND_FLAG
abbrev pub is_appending : ℕ → Bool
is_appending flags = flags / 64 % 2 == 1

abbrev pub or_empty : Option (List ℕ) → List ℕ
or_empty none = []
or_empty (some n) = n

-- The state behind `vfs_add_file`, whose result `ramfs_create` does not use.
abbrev pub or_same : Vfs → Outcome Vfs → Vfs
or_same v (done v') = v'
or_same v failed = v
or_same v strayed = v

abbrev pub add_at : Option (List ℕ) → ℕ → Vfs → Vfs
unfolding vfs_add_file
add_at none file v = v
add_at (some dir) file v = or_same v (vfs_add_file dir file v)

-- `ramfs_create` with its file in the directory of the path; a new file gets its memory.
unfoldable pub create : List ℕ → Disk → Option ℕ × Disk
unfolding basename basepath add_at ramfs_create
create path s =
    let name = or_empty (basename path) in
    let named = record (s.vfs) { filename = put s.next_file name s.vfs.filename } in
    (
      some s.next_file,
      record {
        vfs = add_at (basepath path) s.next_file named;
        ram = put s.next_file (ramfs_create name) s.ram;
        next_file = s.next_file + 1;
      },
    )

abbrev pub store : ℕ → Disk → Option (ℕ × File) → Option (ℕ × Disk)
store f s none = none
store f s (some (n, g)) = some (n, record s { ram = put f g s.ram })

abbrev pub fetch : ℕ → Disk → Option (ℕ × List ℕ × File) → Option (ℕ × List ℕ × Disk)
fetch f s none = none
fetch f s (some (n, b, g)) = some (n, b, record s { ram = put f g s.ram })

-- The functions of `ramfs`, on a heap.
unfoldable pub ramfs : Blocks → Driver Disk
unfolding create ramfs_open ramfs_close ramfs_write ramfs_read
ramfs heap = record {
  vfs = λ s. s.vfs;
  file_open = λ f flags s. (
    0,
    record s {
      ram = put f (ramfs_open (record (s.ram f) { appending = is_appending flags })) s.ram;
    },
  );
  file_close = λ f s. record s { ram = put f (ramfs_close (s.ram f)) s.ram };
  fs_open = λ fs path mode s. create path s;
  file_write = λ f b s. store f s (ramfs_write heap (s.ram f) b);
  file_read = λ f n s. fetch f s (ramfs_read (s.ram f) n);
}
