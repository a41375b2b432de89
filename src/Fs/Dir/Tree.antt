-- ===== src/Fs/Dir/Tree.antt =====
-- What the directories of fs/dirent.c stand for: a tree, and where the names of a path lead in it.
use etaos.Prelude.{ℕ, ◌≤◌, ◌<◌, ◌≡◌, ◌≢◌, ◌⊎◌, inl, inr, subst, List, [], ◌∷◌, All, arith}
use etaos.Crt.Strings.Compare.{IsString}
use etaos.Fs.Path.{slash}
use etaos.Fs.Path.Split.{IsName}
use etaos.Fs.Dir.{Dirent, Vfs, vfs_root}

-- A directory's or a file's name: it is not empty and has neither a slash nor a zero.
abbrev pub IsEntry : List ℕ → Type 0
IsEntry n = IsName n × IsString n

-- The first of some directories that has the name.
abbrev pub FirstNamed : (ℕ → Dirent) → List ℕ → List ℕ → ℕ → Type 0
FirstNamed dirents n [] d = ⊥
FirstNamed dirents n (c ∷ cs) d =
    (((dirents c).name ≡ n) × (c ≡ d)) ⊎ (((dirents c).name ≢ n) × FirstNamed dirents n cs d)

-- From one directory the names lead to another.
abbrev pub Leads : (ℕ → Dirent) → List (List ℕ) → ℕ → ℕ → Type 0
Leads dirents [] a d = a ≡ d
Leads dirents (n ∷ ns) a d =
    (x : ℕ) × FirstNamed dirents n (dirents a).children x × Leads dirents ns x d

-- The root has the name "/", every name is a string, and a directory was made before its children.
pub record WellFormed (v : Vfs) : Type 0 where
  pub root_name : (v.dirents vfs_root).name ≡ slash ∷ []
  pub root_made : 0 < v.next
  pub names : (a : ℕ) → IsString (v.dirents a).name
  pub filenames : (f : ℕ) → IsString (v.filename f)
  pub later : (a : ℕ) → All (λ c. (a < c) × (c < v.next)) (v.dirents a).children

pub FirstNamed-All :
    (dirents : ℕ → Dirent) (n cs : List ℕ) (d : ℕ) (P : ℕ → Type 0)
    → FirstNamed dirents n cs d
    → All P cs
    → P d
FirstNamed-All dirents n [] d P f a = elim f [ ]
FirstNamed-All dirents n (c ∷ cs) d P (inl (e, s)) a = subst P s a.0
FirstNamed-All dirents n (c ∷ cs) d P (inr (e, s)) a = FirstNamed-All dirents n cs d P s a.1

-- In a well-formed state names lead to directories made no earlier.
pub Leads-later :
    (v : Vfs) (ns : List (List ℕ)) (a d : ℕ)
    → WellFormed v
    → Leads v.dirents ns a d
    → a < v.next
    → (a ≤ d) × (d < v.next)
Leads-later v [] a d w e h = (omega (arith, e), omega (arith, e, h))
Leads-later v (n ∷ ns) a d w (x, s, l) h =
    let p =
      FirstNamed-All v.dirents n (v.dirents a).children x (λ c. (a < c) × (c < v.next)) s
        (w.later a) in
    let q = Leads-later v ns x d w l p.1 in (omega (arith, p.0, q.0), q.1)
