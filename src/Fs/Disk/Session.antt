-- ===== src/Fs/Disk/Session.antt =====
-- A session with a new file: `vfs_open` of fs/open_close.c, with `write` and `read` of lib/crt, above
-- fs/ramfs.c.
use etaos.Prelude.{
  ℕ, ◌+◌, ◌-◌, ◌≤◌, ◌<◌, ◌≡◌, inl, inr, refl, sym, ap, subst, ◌∙◌, Bool, true, false, none, some,
  List, [], ◌∷◌, ◌++◌, All, if◌then◌else◌, length, take, arith, Option-cases,
}
use etaos.Fs.Path.{basename, basepath}
use etaos.Fs.Path.Parts.{basename_lem}
use etaos.Fs.Path.Split.{path_of}
use etaos.Fs.Dir.{vfs_root, failed, done, fs_of, vfs_path_to_fs, vfs_find_file}
use etaos.Fs.Dir.Tree.{IsEntry, Leads, WellFormed}
use etaos.Fs.Dir.Make.{path_of-snoc, All-snoc, dirent_find_base}
use etaos.Fs.Ram.{Blocks, File, ramfs_open, ramfs_create, ramfs_write, ramfs_read}
use etaos.Fs.Ram.Bounds.{InBounds}
use etaos.Fs.Ram.RoundTrip.{ramfs_read-ramfs_write}
use etaos.Fs.Iob.{
  Files, max_open, put, free_slot, added, iob_add, opened, made_end, open_new, fs_at, open_by,
  vfs_open, is_readable, is_writable, moved, denied, wrote, have_read, vfs_write, vfs_read,
  write_to, write, read_from, read,
}
use etaos.Fs.Iob.Slots.{free_slot-none}
use etaos.Fs.Disk.{Disk, is_appending, or_empty, create, store, fetch, ramfs}

nothing_first : (n : ℕ) → 0 + n ≡ n
nothing_first n = omega arith

put_same : {A : Type 0} (i : ℕ) (x : A) (f : ℕ → A) → put i x f i ≡ x
put_same i x f = ground arith

-- With memory for the file's new block, on a descriptor of a file that may be read and written, `read`
-- gives back what `write` wrote, as far as it lies in front of the file's length.
pub read-write :
    (heap : Blocks) (i f : ℕ) (t : Files Disk) (xs : List ℕ)
    → (t.state.ram f).wr_idx + length xs < 65535
    → heap.enough ((t.state.ram f).wr_idx + length xs + 1) ≡ true
    → t.iob i ≡ some f
    → is_readable (t.flags f) ≡ true
    → is_writable (t.flags f) ≡ true
    → InBounds (t.state.ram f)
    → (t.state.ram f).wr_idx ≤ (t.state.ram f).length
    → (t.state.ram f).rd_idx ≡ (t.state.ram f).wr_idx
    → (t' t'' : Files Disk) × (write (ramfs heap) i xs t ≡ moved (length xs, t'))
      × (read (ramfs heap) i (length xs) t'
          ≡ moved (length xs, take ((t.state.ram f).length - (t.state.ram f).wr_idx) xs, t''))
unfolding write write_to vfs_write read read_from vfs_read ramfs
read-write heap i f t xs small a e r w b inside q =
    let d = ramfs heap in
    let file = t.state.ram f in
    let (g, h, p, s) = ramfs_read-ramfs_write heap file xs small a b inside q in
    let t' = record t { state = record (t.state) { ram = put f g t.state.ram } } in
    let got = take (file.length - file.wr_idx) xs in
    let t'' = record t' { state = record (t'.state) { ram = put f h t'.state.ram } } in
    (
      t',
      t'',
      ap (λ o. write_to d o xs t) e
          ∙ ap
              (λ (b : Bool).
                if b then wrote t (store f t.state (ramfs_write heap file xs)) else denied)
              w
          ∙ ap (λ o. wrote t (store f t.state o)) p,
      ap (λ o. read_from d o (length xs) t') e
          ∙ ap
              (λ (b : Bool).
                if b
                then have_read t' (fetch f t'.state (ramfs_read (t'.state.ram f) (length xs)))
                else denied)
              r
          ∙ ap (λ x. have_read t' (fetch f t'.state (ramfs_read x (length xs))))
              (put_same f g t.state.ram)
          ∙ ap (λ o. have_read t' (fetch f t'.state o)) s,
    )

-- A file as `ramfs_create` and `ramfs_open` leave it.
abbrev fresh : List ℕ → Bool → File
unfolding ramfs_open ramfs_create
fresh name b = ramfs_open (record (ramfs_create name) { appending = b })

fresh-InBounds :
    (name : List ℕ) (b : Bool)
    → InBounds (fresh name b)
      × ((fresh name b).rd_idx ≡ 0)
      × ((fresh name b).wr_idx ≡ 0)
      × ((fresh name b).length ≡ 64)
unfolding fresh ramfs_open ramfs_create
fresh-InBounds name true = (omega arith, refl, refl, refl)
fresh-InBounds name false = (omega arith, refl, refl, refl)

module _ (heap : Blocks) (ns : List (List ℕ)) (name : List ℕ) (p fs mode : ℕ) (t : Files Disk)
    (w : WellFormed t.state.vfs) (names : All IsEntry (ns ++ name ∷ []))
    (leads : Leads t.state.vfs.dirents ns vfs_root p)
    (mounted : (t.state.vfs.dirents p).fs ≡ some fs)
    (absent : vfs_find_file (path_of (ns ++ name ∷ [])) t.state.vfs ≡ failed) where
  abbrev path : List ℕ
  path = path_of (ns ++ name ∷ [])

  -- The state with the new file, before it is in the table.
  abbrev made : Files Disk
  unfolding ramfs
  made =
      let s = (create path t.state).1 in
      record t {
        flags = put t.state.next_file mode t.flags;
        state = ((ramfs heap).file_open t.state.next_file mode s).1;
      }

  open_made : vfs_open (ramfs heap) path mode t ≡ (
    opened ((iob_add t.state.next_file made).1.fd t.state.next_file),
    (iob_add t.state.next_file made).1,
  )
  unfolding made ramfs create vfs_open open_by open_new fs_at vfs_path_to_fs made_end
  open_made =
      let d = ramfs heap in
      let v = t.state.vfs in
      let (b, e) = All-snoc ns name names in
      let base = ap basepath (path_of-snoc ns name) ∙ (basename_lem (path_of ns) name (e.0).1).1 in
      ap (open_by d path mode t) absent
      ∙ ap (λ o. open_new d path mode t (fs_at d o v)) base
      ∙ ap (λ x. open_new d path mode t (fs_of v x)) (dirent_find_base v ns p w b leads)
      ∙ ap (λ o. open_new d path mode t (done o)) mounted

  made-ram : made.state.ram t.state.next_file ≡ fresh (or_empty (basename path)) (is_appending mode)
  unfolding made ramfs create fresh
  made-ram =
      let f = t.state.next_file in
      let name' = or_empty (basename path) in
      let opens : File → File = λ x. ramfs_open (record x { appending = is_appending mode }) in
      put_same f (opens (put f (ramfs_create name') t.state.ram f))
        (put f (ramfs_create name') t.state.ram)
      ∙ ap opens (put_same f (ramfs_create name') t.state.ram)

  made-flags : made.flags t.state.next_file ≡ mode
  unfolding made
  made-flags = put_same t.state.next_file mode t.flags

  made-free_slot :
      (i : ℕ)
      → free_slot t.iob 3 21 ≡ some i
      → vfs_open (ramfs heap) path mode t ≡ (opened i, (added t.state.next_file made (some i)).1)
  unfolding made iob_add
  made-free_slot i z =
      let f = t.state.next_file in
      open_made
      ∙ ap (λ o. (opened ((added f made o).1.fd f), (added f made o).1)) z
      ∙ ap (λ n. (opened n, (added f made (some i)).1)) (put_same f i made.fd)

  -- `vfs_open` of a path where no file is makes one, in a well-formed state, if the names of the
  -- path, none of which is empty or has a slash or a zero, lead to a directory with a file system
  -- and a descriptor is free; with the flags for it, what is written to it and read back is the
  -- first 64 bytes. At most 32767 bytes are written, the largest `int`, and the heap has a block of
  -- one byte more than are written.
  pub read-vfs_open :
      (xs : List ℕ) (j : ℕ)
      → length xs < 32768
      → heap.enough (length xs + 1) ≡ true
      → is_readable mode ≡ true
      → is_writable mode ≡ true
      → 3 ≤ j
      → j < max_open
      → t.iob j ≡ none
      → (i : ℕ) × (t₁ t₂ t₃ : Files Disk) × (vfs_open (ramfs heap) path mode t ≡ (opened i, t₁))
        × (write (ramfs heap) i xs t₁ ≡ moved (length xs, t₂))
        × (read (ramfs heap) i (length xs) t₂ ≡ moved (length xs, take 64 xs, t₃))
  read-vfs_open xs j small a r u lo hi free = elim (Option-cases (free_slot t.iob 3 21)) [
    | inl z ↦ absurd (free_slot-none t.iob 21 3 z j lo (omega (arith, hi)) free)
    | inr (i, z) ↦
        let f = t.state.next_file in
        let t₁ = (added f made (some i)).1 in
        let (b, rd, wr, len) = fresh-InBounds (or_empty (basename path)) (is_appending mode) in
        let n : (t₁.state.ram f).length - (t₁.state.ram f).wr_idx ≡ 64 =
          ap (λ (x : File). x.length - x.wr_idx) made-ram ∙ omega (arith, len, wr) in
        let front : (t₁.state.ram f).wr_idx ≡ 0 = ap (λ (x : File). x.wr_idx) made-ram ∙ wr in
        let granted =
          ap (λ k. heap.enough (k + length xs + 1)) front
          ∙ ap (λ k. heap.enough (k + 1)) (nothing_first (length xs))
          ∙ a in
        let (t₂, t₃, wrote', got) =
          read-write heap i f t₁ xs (omega (arith, front, small)) granted
            (put_same i (some f) made.iob) (ap is_readable made-flags ∙ r)
            (ap is_writable made-flags ∙ u) (subst InBounds (sym made-ram) b)
            (subst (λ (x : File). x.wr_idx ≤ x.length) (sym made-ram) (omega (arith, wr, len)))
            (subst (λ (x : File). x.rd_idx ≡ x.wr_idx) (sym made-ram) (rd ∙ sym wr)) in
        (
          i,
          t₁,
          t₂,
          t₃,
          made-free_slot i z,
          wrote',
          got ∙ ap (λ k. moved (length xs, take k xs, t₃)) n,
        )
  ]
