-- ===== src/Fs/Iob.antt =====
-- The table of open files: `iob_add` and `iob_remove` of fs/vfs.c, fs/open_close.c, fs/read_write.c
-- with write.c and read.c of lib/crt, and `vfs_setindex` of
-- fs/fops.c. The drivers' functions, which the code calls
-- by pointer, are the record `Driver`, over a state of their own that holds the directories.
pub mod Slots
pub mod Open
use etaos.Prelude.{
  ℕ, zero, suc, ◌+◌, ◌-◌, ◌/◌, ◌%◌, Bool, true, false, not, ◌&&◌, Option, none, some, List, [], ◌∷◌,
  if◌then◌else◌, ◌==◌, ltb,
}
use etaos.Fs.Path.{basepath}
use etaos.Fs.Dir.{Vfs, Outcome, done, failed, strayed, vfs_find_file, vfs_path_to_fs}

-- What a file system offers: `open` of a file, which gets the file's flags, `close`, `write` and
-- `read`, of which the last two have no result where they leave the file's memory, and `open` of the file
-- system, which makes a file. An error is its number, and zero is -EOK; a file without `open`
-- answers zero.
pub record Driver (S : Type 0) : Type 0 where
  pub vfs : S → Vfs
  pub file_open : ℕ → ℕ → S → ℕ × S
  pub file_close : ℕ → S → S
  pub fs_open : ℕ → List ℕ → ℕ → S → Option ℕ × S
  pub file_write : ℕ → List ℕ → S → Option (ℕ × S)
  pub file_read : ℕ → ℕ → S → Option (ℕ × List ℕ × S)

-- `__iob`, the files' `fd` and `flags`, and the drivers' state.
pub record Files (S : Type 0) : Type 0 where
  pub iob : ℕ → Option ℕ
  pub fd : ℕ → ℕ
  pub flags : ℕ → ℕ
  pub state : S

abbrev pub max_open : ℕ
max_open = 24

abbrev pub put : {A : Type 0} → ℕ → A → (ℕ → A) → ℕ → A
put i x f j = if j == i then x else f j

-- The loop of `iob_add`: the first free place of so many.
abbrev pub slot_or : Option ℕ → ℕ → Option ℕ → Option ℕ
slot_or none rc rest = some rc
slot_or (some f) rc rest = rest

unfoldable pub free_slot : (ℕ → Option ℕ) → ℕ → ℕ → Option ℕ
free_slot iob rc zero = none
free_slot iob rc (suc left) = slot_or (iob rc) rc (free_slot iob (rc + 1) left)

-- `iob_add`; `none` is -1.
abbrev pub added : {S : Type 0} → ℕ → Files S → Option ℕ → Option ℕ × Files S
added stream t none = (none, t)
added stream t (some rc) =
    (some rc, record t { iob = put rc (some stream) t.iob; fd = put stream rc t.fd })

unfoldable pub iob_add : {S : Type 0} → ℕ → Files S → Option ℕ × Files S
unfolding free_slot
iob_add stream t = added stream t (free_slot t.iob 3 (max_open - 3))

-- `iob_remove`; `false` is -EINVAL.
abbrev pub taken_out : {S : Type 0} → ℕ → Files S → Option ℕ → Bool × Files S
taken_out i t none = (false, t)
taken_out i t (some f) = (true, record t { iob = put i none t.iob; fd = put f 0 t.fd })

unfoldable pub iob_remove : {S : Type 0} → ℕ → Files S → Bool × Files S
iob_remove i t = taken_out i t (t.iob i)

-- The result of `vfs_open`: a descriptor, the driver's error, -EBADF, or a search that strays.
pub data Opened : Type 0 where
  opened refused : ℕ → Opened
  bad_file lost : Opened

module _ {S : Type 0} (d : Driver S) where
  -- The end for a file that is there: its flags are set, it is opened and added to the table.
  unfoldable pub open_end : ℕ → Files S → ℕ × S → Opened × Files S
  unfolding iob_add
  open_end file t (err, s) =
      let t' = record t { state = s } in
      let r = iob_add file t' in if err == 0 then (opened (r.1.fd file), r.1) else (refused err, t')

  unfoldable pub open_found : ℕ → ℕ → Files S → Opened × Files S
  unfolding open_end
  open_found file mode t =
      let t' = record t { flags = put file mode t.flags } in
      open_end file t' (d.file_open file mode t.state)

  -- The end for a file that the file system makes; the result of opening it is not used.
  unfoldable pub made_end : ℕ → Files S → Option ℕ × S → Opened × Files S
  unfolding iob_add
  made_end mode t (none, s) = (bad_file, record t { state = s })
  made_end mode t (some file, s) =
      let t' = record t { flags = put file mode t.flags; state = (d.file_open file mode s).1 } in
      let r = iob_add file t' in (opened (r.1.fd file), r.1)

  unfoldable pub open_new : List ℕ → ℕ → Files S → Outcome (Option ℕ) → Opened × Files S
  unfolding made_end
  open_new path mode t (done (some fs)) = made_end mode t (d.fs_open fs path mode t.state)
  open_new path mode t (done none) = (bad_file, t)
  open_new path mode t failed = (bad_file, t)
  open_new path mode t strayed = (lost, t)

  unfoldable pub fs_at : Option (List ℕ) → Vfs → Outcome (Option ℕ)
  unfolding vfs_path_to_fs
  fs_at none v = done none
  fs_at (some dir) v = vfs_path_to_fs dir v

  unfoldable pub open_by : List ℕ → ℕ → Files S → Outcome ℕ → Opened × Files S
  unfolding open_found open_new fs_at basepath
  open_by path mode t (done file) = open_found file mode t
  open_by path mode t failed = open_new path mode t (fs_at (basepath path) (d.vfs t.state))
  open_by path mode t strayed = (lost, t)

  -- `vfs_open`
  unfoldable pub vfs_open : List ℕ → ℕ → Files S → Opened × Files S
  unfolding open_by vfs_find_file
  vfs_open path mode t = open_by path mode t (vfs_find_file path (d.vfs t.state))

  -- `vfs_close`
  unfoldable pub closed : ℕ → Files S → Option ℕ → Files S
  unfolding iob_remove
  closed i t none = t
  closed i t (some file) =
      let t' = (iob_remove i (record t { state = d.file_close file t.state })).1 in
      record t' { flags = put file 0 t'.flags }

  unfoldable pub vfs_close : ℕ → Files S → Files S
  unfolding closed
  vfs_close i t = closed i t (t.iob i)

-- STREAM_READ_FLAG and STREAM_WRITE_FLAG
abbrev pub is_readable : ℕ → Bool
is_readable flags = flags % 2 == 1

abbrev pub is_writable : ℕ → Bool
is_writable flags = flags / 2 % 2 == 1

-- What reading and writing come to: a result, -EINVAL, -EBADF, or an access outside of the memory.
pub data Transfer (A : Type 0) : Type 0 where
  moved : A → Transfer A
  denied unknown outside : Transfer A

abbrev pub wrote : {S : Type 0} → Files S → Option (ℕ × S) → Transfer (ℕ × Files S)
wrote t none = outside
wrote t (some (n, s)) = moved (n, record t { state = s })

abbrev pub have_read :
    {S : Type 0} → Files S → Option (ℕ × List ℕ × S) → Transfer (ℕ × List ℕ × Files S)
have_read t none = outside
have_read t (some (n, b, s)) = moved (n, b, record t { state = s })

module _ {S : Type 0} (d : Driver S) where
  -- `vfs_write` and `vfs_read`
  unfoldable pub vfs_write : ℕ → List ℕ → Files S → Transfer (ℕ × Files S)
  vfs_write file buff t =
      if is_writable (t.flags file) then wrote t (d.file_write file buff t.state) else denied

  unfoldable pub vfs_read : ℕ → ℕ → Files S → Transfer (ℕ × List ℕ × Files S)
  vfs_read file size t =
      if is_readable (t.flags file) then have_read t (d.file_read file size t.state) else denied

  -- `write` and `read`, by the entry of the table.
  unfoldable pub write_to : Option ℕ → List ℕ → Files S → Transfer (ℕ × Files S)
  unfolding vfs_write
  write_to none buff t = unknown
  write_to (some file) buff t = vfs_write file buff t

  unfoldable pub write : ℕ → List ℕ → Files S → Transfer (ℕ × Files S)
  unfolding write_to
  write i buff t = write_to (t.iob i) buff t

  unfoldable pub read_from : Option ℕ → ℕ → Files S → Transfer (ℕ × List ℕ × Files S)
  unfolding vfs_read
  read_from none len t = unknown
  read_from (some file) len t = vfs_read file len t

  unfoldable pub read : ℕ → ℕ → Files S → Transfer (ℕ × List ℕ × Files S)
  unfolding read_from
  read i len t = read_from (t.iob i) len t

-- `vfs_setindex` on a file's index; `none` is -EINVAL.
unfoldable pub vfs_setindex : ℕ → ℕ → ℕ → Option ℕ
vfs_setindex index to max = if ltb max to && not (max == 0) then none else some to
