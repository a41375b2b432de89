-- ===== src/Fs/Dir/Find.antt =====
-- `dirent_find` of fs/dirent.c finds the directory that the names of a path lead to, and no other.
use etaos.Prelude.{
  ℕ, ◌≡◌, ◌⊎◌, inl, inr, ◌↔◌, refl, sym, ap, ◌∙◌, Bool, true, false, Option, none, some, some_inj,
  List, [], ◌∷◌, All, arith, if◌then◌else◌, Bool-cases,
}
use etaos.Crt.Strings.{same, strcmp}
use etaos.Crt.Strings.Compare.{IsString, same_lem}
use etaos.Fs.Path.{slash, split_path}
use etaos.Fs.Path.Split.{IsName, path_of, split_path-path_of}
use etaos.Fs.Dir.{
  Dirent, Vfs, vfs_root, Found, found, missing, stray, find_child, section, descend, dirent_find,
}
use etaos.Fs.Dir.Tree.{IsEntry, FirstNamed, Leads, WellFormed}

clash : {b : Bool} → b ≡ false → b ≡ true → ⊥
clash e h = ground arith

missing-found : {d : ℕ} → missing ≡ found d → ⊥
missing-found e = ground arith

stray-found : {d : ℕ} → stray ≡ found d → ⊥
stray-found e = ground arith

module _ (dirents : ℕ → Dirent) (named : (a : ℕ) → IsString (dirents a).name) where
  find_child-FirstNamed :
      (n cs : List ℕ) (d : ℕ)
      → IsString n
      → (find_child dirents n cs ≡ some d) ↔ FirstNamed dirents n cs d
  unfolding find_child
  find_child-FirstNamed n [] d p = (λ e. ground arith, λ f. elim f [ ])
  find_child-FirstNamed n (c ∷ cs) d p =
      let ih = find_child-FirstNamed n cs d p in
      let eq = same_lem (dirents c).name n (named c) p in
      let rest = find_child dirents n cs in
      let pick : Bool → Option ℕ = λ b. if b then some c else rest in
      elim (Bool-cases (same (dirents c).name n)) [
        | inl y ↦ (
          λ e. inl (eq.0 y, some_inj c d (sym (ap pick y) ∙ e)),
          λ f. ap pick y ∙ elim f [ inl (e, s) ↦ ap some s | inr (z, t) ↦ absurd (z (eq.0 y)) ],
        )
        | inr x ↦ (
          λ e. inr (λ z. clash x (eq.1 z), ih.0 (sym (ap pick x) ∙ e)),
          λ f. ap pick x ∙ elim f [ inl (e, s) ↦ absurd (clash x (eq.1 e)) | inr (z, t) ↦ ih.1 t ],
        )
      ]

  -- Without children no name is found below.
  descend_empty :
      (ss : List (List ℕ)) (a : ℕ)
      → (dirents a).children ≡ []
      → descend dirents ss a false ≡ missing
  unfolding descend
  descend_empty [] a e = refl
  descend_empty (s ∷ ss) a e =
      let more : ℕ → Bool → Found = λ d b. descend dirents ss d b in
      ap (λ cs. section cs (find_child dirents s cs) a more) e ∙ descend_empty ss a e

  section-found :
      (cs : List ℕ) (o : Option ℕ) (a d : ℕ) (more : ℕ → Bool → Found)
      → section cs o a more ≡ found d
      → ((cs ≡ []) × (more a false ≡ found d)) ⊎ ((x : ℕ) × (o ≡ some x) × (more x true ≡ found d))
  section-found [] o a d more e = inl (refl, e)
  section-found (c ∷ cs) none a d more e = absurd (stray-found e)
  section-found (c ∷ cs) (some x) a d more e = inr (x, refl, e)

  section-FirstNamed :
      (n cs : List ℕ) (x a : ℕ) (more : ℕ → Bool → Found)
      → FirstNamed dirents n cs x
      → section cs (some x) a more ≡ more x true
  section-FirstNamed n [] x a more f = elim f [ ]
  section-FirstNamed n (c ∷ cs) x a more f = refl

  descend-Leads :
      (ss : List (List ℕ)) (a d : ℕ)
      → All IsEntry ss
      → descend dirents ss a true ≡ found d
      → Leads dirents ss a d
  unfolding descend
  descend-Leads [] a d p e = ground arith
  descend-Leads (s ∷ ss) a d p e =
      let cs = (dirents a).children in
      elim (section-found cs (find_child dirents s cs) a d (λ x b. descend dirents ss x b) e) [
        | inl (none_there, q) ↦ absurd (missing-found (sym (descend_empty ss a none_there) ∙ q))
        | inr (x, f, q) ↦
            (x, (find_child-FirstNamed s cs x (p.0).1).0 f, descend-Leads ss x d p.1 q)
      ]

  Leads-descend :
      (ss : List (List ℕ)) (a d : ℕ)
      → All IsEntry ss
      → Leads dirents ss a d
      → descend dirents ss a true ≡ found d
  unfolding descend
  Leads-descend [] a d p e = ap found e
  Leads-descend (s ∷ ss) a d p (x, f, l) =
      let cs = (dirents a).children in
      let more : ℕ → Bool → Found = λ y b. descend dirents ss y b in
      ap (λ o. section cs o a more) ((find_child-FirstNamed s cs x (p.0).1).1 f)
      ∙ section-FirstNamed s cs x a more f
      ∙ Leads-descend ss x d p.1 l

IsEntry-IsName : (ns : List (List ℕ)) → All IsEntry ns → All IsName ns
IsEntry-IsName [] a = tt
IsEntry-IsName (n ∷ ns) a = ((a.0).0, IsEntry-IsName ns a.1)

-- A path with names is not the root's name.
not_root :
    (n : List ℕ) (ns : List (List ℕ)) → IsEntry n → same (slash ∷ []) (path_of (n ∷ ns)) ≡ false
unfolding same strcmp
not_root [] ns p = absurd (omega (arith, (p.0).0))
not_root (c ∷ cs) ns p = ground (arith, p.1)

-- In a well-formed state `dirent_find` finds a directory at the path of some names exactly if the
-- names lead from the root to it. Each name is not empty and has neither a slash nor a zero, and
-- there is at least one.
pub dirent_find-Leads :
    (v : Vfs) (n : List ℕ) (ns : List (List ℕ)) (d : ℕ)
    → WellFormed v
    → All IsEntry (n ∷ ns)
    → (dirent_find v vfs_root (path_of (n ∷ ns)) ≡ found d) ↔ Leads v.dirents (n ∷ ns) vfs_root d
unfolding dirent_find descend
dirent_find-Leads v n ns d w p =
    let path = path_of (n ∷ ns) in
    let start : List (List ℕ) → Found = λ ss. descend v.dirents ss vfs_root false in
    let test : same (v.dirents vfs_root).name path ≡ false =
      ap (λ m. same m path) w.root_name ∙ not_root n ns p.0 in
    let step : dirent_find v vfs_root path ≡ descend v.dirents (n ∷ ns) vfs_root true =
      ap (λ b. if b then found vfs_root else start (split_path path)) test
      ∙ ap start (split_path-path_of (n ∷ ns) (IsEntry-IsName (n ∷ ns) p)) in
    (
      λ e. descend-Leads v.dirents w.names (n ∷ ns) vfs_root d p (sym step ∙ e),
      λ l. step ∙ Leads-descend v.dirents w.names (n ∷ ns) vfs_root d p l,
    )

-- It finds the root at its name.
pub dirent_find_root :
    (v : Vfs) → WellFormed v → dirent_find v vfs_root (slash ∷ []) ≡ found vfs_root
unfolding dirent_find same strcmp
dirent_find_root v w =
    ap
      (λ m.
        if same m (slash ∷ [])
        then found vfs_root
        else descend v.dirents (split_path (slash ∷ [])) vfs_root false)
      w.root_name
