-- ===== src/Fs/Dir/File.antt =====
-- Files in directories: `vfs_add_file` and `vfs_find_file` of fs/vfs.c with `unlink` of lib/crt/unlink.c.
use etaos.Prelude.{
  ℕ, ◌<◌, ◌≡◌, ◌≢◌, inl, inr, refl, sym, ap, subst, ◌∙◌, fun_ext, some, List, [], ◌∷◌, ◌++◌, All,
  arith, if◌then◌else◌, ℕ_discrete,
}
use etaos.Crt.Strings.Compare.{IsString, same_lem}
use etaos.Fs.Path.Parts.{or_root}
use etaos.Fs.Path.Split.{path_of}
use etaos.Fs.Dir.{
  Dirent, Vfs, vfs_root, change, dirent_find, dirent_add_file, find_file, dirent_find_file,
  remove_file, done, with_found, or_failed, removed, unlink_found, vfs_add_file, vfs_find_file,
  unlink,
}
use etaos.Fs.Dir.Tree.{IsEntry, FirstNamed, Leads, WellFormed}
use etaos.Fs.Dir.Make.{dirent_find_base, with_parts_at, All-snoc}

-- Where names lead depends on the names and the children only.
module _ (ds es : ℕ → Dirent) (n : (a : ℕ) → (ds a).name ≡ (es a).name)
    (c : (a : ℕ) → (ds a).children ≡ (es a).children) where
  FirstNamed-same : (m cs : List ℕ) (x : ℕ) → FirstNamed ds m cs x → FirstNamed es m cs x
  FirstNamed-same m [] x f = elim f [ ]
  FirstNamed-same m (b ∷ cs) x (inl (q, s)) = inl (sym (n b) ∙ q, s)
  FirstNamed-same m (b ∷ cs) x (inr (q, t)) = inr (λ z. q (n b ∙ z), FirstNamed-same m cs x t)

  Leads-same : (ns : List (List ℕ)) (a d : ℕ) → Leads ds ns a d → Leads es ns a d
  Leads-same [] a d l = l
  Leads-same (m ∷ ms) a d (x, f, l) = (
    x,
    subst (λ cs. FirstNamed es m cs x) (c a) (FirstNamed-same m (ds a).children x f),
    Leads-same ms x d l,
  )

module _ (v : Vfs) (p f : ℕ) where
  abbrev with_file : Vfs
  unfolding dirent_add_file
  with_file = dirent_add_file p f v

  file-name : (a : ℕ) → (v.dirents a).name ≡ (with_file.dirents a).name
  unfolding with_file dirent_add_file
  file-name a = ground arith

  file-children : (a : ℕ) → (v.dirents a).children ≡ (with_file.dirents a).children
  unfolding with_file dirent_add_file
  file-children a = ground arith

  file-files : (with_file.dirents p).files ≡ f ∷ (v.dirents p).files
  unfolding with_file dirent_add_file
  file-files = ground arith

  with_file-WellFormed : WellFormed v → WellFormed with_file
  unfolding with_file dirent_add_file
  with_file-WellFormed w = record {
    root_name = sym (file-name vfs_root) ∙ w.root_name;
    root_made = w.root_made;
    names = λ a. subst IsString (file-name a) (w.names a);
    filenames = w.filenames;
    later = λ a. subst (All λ c. (a < c) × (c < v.next)) (file-children a) (w.later a);
  }

  file_here : IsString (v.filename f) → dirent_find_file with_file p (v.filename f) ≡ some f
  unfolding with_file dirent_add_file dirent_find_file find_file
  file_here s =
      let rest = find_file v.filename (v.filename f) (v.dirents p).files in
      ap (find_file v.filename (v.filename f)) file-files
      ∙ ap (λ b. if b then some f else rest) ((same_lem (v.filename f) (v.filename f) s s).1 refl)

  file_removed : remove_file f (with_file.dirents p).files ≡ some (v.dirents p).files
  unfolding remove_file
  file_removed = ap (remove_file f) file-files ∙ ground arith

  -- The directory without the file is what it was.
  without_file : change p (λ d. record d { files = (v.dirents p).files }) with_file ≡ v
  unfolding with_file dirent_add_file
  without_file =
      ap (λ ds. record v { dirents = ds })
        (fun_ext λ b. elim (ℕ_discrete b p) [
          | yes e ↦ ground (arith, e, ap v.dirents e)
          | no ne ↦ ground (arith, ne)
        ])

-- The file stands in no directory.
abbrev pub Unlisted : Vfs → ℕ → Type 0
Unlisted v f = (a : ℕ) → All (λ g. g ≢ f) (v.dirents a).files

-- In a well-formed state, a file that `vfs_add_file` adds to the directory that the names lead to
-- is found by `vfs_find_file` at the path with its name, and `unlink` of that path gives the state
-- before back. The state with the file is well-formed, and the names lead where they led. The file
-- stood in no directory, and no name is empty or has a slash or a zero.
pub vfs_find_file-vfs_add_file :
    (v : Vfs) (ns : List (List ℕ)) (p f : ℕ)
    → WellFormed v
    → All IsEntry (ns ++ v.filename f ∷ [])
    → Leads v.dirents ns vfs_root p
    → Unlisted v f
    → (v' : Vfs) × (vfs_add_file (or_root (path_of ns)) f v ≡ done v')
      × (vfs_find_file (path_of (ns ++ v.filename f ∷ [])) v' ≡ done f)
      × (unlink (path_of (ns ++ v.filename f ∷ [])) v' ≡ done v)
      × WellFormed v'
      × Leads v'.dirents ns vfs_root p
unfolding with_file vfs_add_file vfs_find_file unlink
vfs_find_file-vfs_add_file v ns p f w a l apart =
    let name = v.filename f in
    let path = path_of (ns ++ name ∷ []) in
    let (b, e) = All-snoc ns name a in
    let v' = with_file v p f in
    let w' = with_file-WellFormed v p f w in
    let l' =
      Leads-same v.dirents v'.dirents (file-name v p f) (file-children v p f) ns vfs_root p l in
    let there = dirent_find_base v' ns p w' b l' in
    let here = file_here v p f e.1 in
    (
      v',
      ap (λ d. with_found d (λ x. done (with_file v x f))) (dirent_find_base v ns p w b l),
      with_parts_at ns name
            (λ base n.
              with_found (dirent_find v' vfs_root base) λ x. or_failed (dirent_find_file v' x n))
            e
          ∙ ap (λ d. with_found d λ x. or_failed (dirent_find_file v' x name)) there
          ∙ ap or_failed here,
      with_parts_at ns name
            (λ base n.
              with_found (dirent_find v' vfs_root base)
                λ x. unlink_found x v' (dirent_find_file v' x n))
            e
          ∙ ap (λ d. with_found d λ x. unlink_found x v' (dirent_find_file v' x name)) there
          ∙ ap (unlink_found p v') here
          ∙ ap (removed p v') (file_removed v p f)
          ∙ ap done (without_file v p f),
      w',
      l',
    )
