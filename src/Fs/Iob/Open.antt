-- ===== src/Fs/Iob/Open.antt =====
-- Opening and closing a file: fs/open_close.c with the table of fs/vfs.c.
use etaos.Prelude.{
  ℕ, ◌≤◌, ◌<◌, ◌≡◌, ◌≢◌, inl, inr, ℕ_discrete, refl, sym, ap, subst, ◌∙◌, fun_ext, Option, none,
  some, List, arith, Option-cases,
}
use etaos.Fs.Dir.{done, vfs_find_file}
use etaos.Fs.Iob.{
  Driver, Files, max_open, put, free_slot, added, iob_add, taken_out, iob_remove, Opened, opened,
  open_end, open_found, open_by, vfs_open, closed, vfs_close,
}
use etaos.Fs.Iob.Slots.{FirstFree, free_slot-FirstFree, free_slot_full, free_slot-none}

put_undone : (iob : ℕ → Option ℕ) (i f : ℕ) → iob i ≡ none → put i none (put i (some f) iob) ≡ iob
put_undone iob i f e =
    fun_ext
      λ j. elim (ℕ_discrete j i) [ yes k ↦ ground (arith, e, ap iob k) | no k ↦ ground (arith, k) ]

module _ {S : Type 0} (d : Driver S) (path : List ℕ) (mode file : ℕ) (t : Files S) (s : S)
    (there : vfs_find_file path (d.vfs t.state) ≡ done file)
    (opens : d.file_open file mode t.state ≡ (0, s)) where
  abbrev ready : Files S
  ready = record t { flags = put file mode t.flags; state = s }

  open_ready :
      vfs_open d path mode t ≡ (opened ((iob_add file ready).1.fd file), (iob_add file ready).1)
  unfolding vfs_open open_by open_found open_end
  open_ready =
      ap (open_by d path mode t) there
      ∙ ap (open_end d file (record t { flags = put file mode t.flags })) opens

  -- Opening with the free descriptor `i`, and closing it.
  abbrev listed : ℕ → Files S
  listed i = (added file ready (some i)).1

  open_listed :
      (i : ℕ) → free_slot t.iob 3 21 ≡ some i → vfs_open d path mode t ≡ (opened i, listed i)
  unfolding iob_add
  open_listed i z =
      let own : (listed i).fd file ≡ i = ground arith in
      open_ready
      ∙ ap (λ o. (opened ((added file ready o).1.fd file), (added file ready o).1)) z
      ∙ ap (λ n. (opened n, listed i)) own

  abbrev unlisted : ℕ → Files S
  unlisted i = (taken_out i (record (listed i) { state = d.file_close file s }) (some file)).1

  close_listed :
      (i : ℕ)
      → vfs_close d i (listed i) ≡ record (unlisted i) { flags = put file 0 (listed i).flags }
  unfolding vfs_close closed iob_remove
  close_listed i =
      let own : (listed i).iob i ≡ some file = ground arith in
      let t' = record (listed i) { state = d.file_close file s } in
      ap (closed d i (listed i)) own
      ∙ ap (λ o. record ((taken_out i t' o).1) { flags = put file 0 (taken_out i t' o).1.flags })
          own

  -- A file that is there and opens without an error is opened with the first descriptor from 3 on
  -- that is free, if one below 24 is, and closing that descriptor gives the table of open files
  -- before back, with the file's descriptor and flags zero.
  pub vfs_close-vfs_open :
      (j : ℕ)
      → 3 ≤ j
      → j < max_open
      → t.iob j ≡ none
      → let (r, t') = vfs_open d path mode t in
        (i : ℕ) × FirstFree t.iob 3 21 i
        × (r ≡ opened i)
        × (t'.iob i ≡ some file)
        × (t'.flags file ≡ mode)
        × ((vfs_close d i t').iob ≡ t.iob)
        × ((vfs_close d i t').fd file ≡ 0)
        × ((vfs_close d i t').flags file ≡ 0)
  vfs_close-vfs_open j p q e = elim (Option-cases (free_slot t.iob 3 21)) [
    | inl z ↦ absurd (free_slot-none t.iob 21 3 z j p (omega (arith, q)) e)
    | inr (i, z) ↦
        let r = free_slot-FirstFree t.iob 21 3 i z in
        let c = close_listed i in
        let closes : Files S → Type 0 =
          λ u. (u.iob ≡ t.iob) × (u.fd file ≡ 0) × (u.flags file ≡ 0) in
        let after : closes (vfs_close d i (listed i)) =
          subst closes (sym c) (put_undone t.iob i file r.free, ground arith, ground arith) in
        let g =
          subst
            (λ (x : Opened × Files S).
              (x.0 ≡ opened i)
              × (x.1.iob i ≡ some file)
              × (x.1.flags file ≡ mode)
              × closes (vfs_close d i x.1))
            (sym (open_listed i z)) (refl, ground arith, ground arith, after) in
        let h = g.3 in (i, r, g.0, g.1, g.2, h.0, h.1, h.2)
  ]

  -- With no descriptor free, a file that is there and opens without an error is opened all the
  -- same, and what is returned is the descriptor that the file had before.
  pub vfs_open_full :
      ((j : ℕ) → 3 ≤ j → j < max_open → t.iob j ≢ none)
      → let (r, t') = vfs_open d path mode t in (r ≡ opened (t.fd file)) × (t'.iob ≡ t.iob)
  unfolding iob_add
  vfs_open_full h =
      let z = free_slot_full t.iob 21 3 (λ j p q. h j p (omega (arith, q))) in
      let e =
        open_ready
        ∙ ap (λ o. (opened ((added file ready o).1.fd file), (added file ready o).1)) z in
      (ap (λ (x : Opened × Files S). x.0) e, ap (λ (x : Opened × Files S). x.1.iob) e)
