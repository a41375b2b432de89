-- ===== src/Fs/Dir/Make.antt =====
-- `mkdir` of lib/crt/mkdir.c makes a directory that `dirent_find` finds, and keeps the state well formed.
use etaos.Prelude.{
  ℕ, ◌+◌, ◌<◌, ◌≡◌, ◌≢◌, inl, inr, refl, sym, ap, subst, ◌∙◌, some, List, [], ◌∷◌, ◌++◌, All, arith,
  ℕ_discrete,
}
use mathlib.Core.List.{append-nil, append_assoc}
use etaos.Crt.Strings.Compare.{IsString}
use etaos.Fs.Path.{slash, basename, basepath}
use etaos.Fs.Path.Parts.{joined, or_root, basename_lem}
use etaos.Fs.Path.Split.{path_of}
use etaos.Fs.Dir.{
  Dirent, Vfs, vfs_root, found, dirent_find, dirent_create, dirent_add_child, Outcome, done,
  with_found, with_parts, mkdir,
}
use etaos.Fs.Dir.Tree.{IsEntry, FirstNamed, Leads, WellFormed, FirstNamed-All, Leads-later}
use etaos.Fs.Dir.Find.{dirent_find-Leads, dirent_find_root}

pub path_of-snoc :
    (ns : List (List ℕ)) (n : List ℕ) → path_of (ns ++ n ∷ []) ≡ joined (path_of ns) n
path_of-snoc [] n = ap (λ m. slash ∷ m) (append-nil n)
path_of-snoc (m ∷ ms) n =
    ap (λ t. slash ∷ (m ++ t)) (path_of-snoc ms n)
    ∙ ap (λ t. slash ∷ t) (sym (append_assoc m (path_of ms) (slash ∷ n)))

-- `dirent_find` at a base path: the directory that the names lead to, or the root without a name.
pub dirent_find_base :
    (v : Vfs) (ns : List (List ℕ)) (p : ℕ)
    → WellFormed v
    → All IsEntry ns
    → Leads v.dirents ns vfs_root p
    → dirent_find v vfs_root (or_root (path_of ns)) ≡ found p
dirent_find_base v [] p w a l = dirent_find_root v w ∙ ap found l
dirent_find_base v (n ∷ ns) p w a l = (dirent_find-Leads v n ns p w a).1 l

-- The state with a new directory below a parent.
unfoldable pub with_dir : ℕ → List ℕ → Vfs → Vfs
unfolding dirent_create dirent_add_child
with_dir parent name v = dirent_add_child parent v.next (dirent_create name v).1

module _ (v : Vfs) (p : ℕ) (name : List ℕ) (made : p < v.next) where
  abbrev after : ℕ → Dirent
  unfolding with_dir dirent_create dirent_add_child
  after = (with_dir p name v).dirents

  after-parent : (after p).children ≡ v.next ∷ (v.dirents p).children
  unfolding after with_dir dirent_create dirent_add_child
  after-parent = ground arith

  after-dir : ((after v.next).name ≡ name) × ((after v.next).children ≡ [])
  unfolding after with_dir dirent_create dirent_add_child
  after-dir = ground arith

  after-other : (b : ℕ) → b ≢ p → b ≢ v.next → (after b).children ≡ (v.dirents b).children
  unfolding after with_dir dirent_create dirent_add_child
  after-other b h k = ground arith

  after-name : (b : ℕ) → b ≢ v.next → (after b).name ≡ (v.dirents b).name
  unfolding after with_dir dirent_create dirent_add_child
  after-name b h = ground arith

  -- A child made earlier is found under its name as before.
  after-FirstNamed :
      (m cs : List ℕ) (x : ℕ)
      → All (λ c. c < v.next) cs
      → FirstNamed v.dirents m cs x
      → FirstNamed after m cs x
  after-FirstNamed m [] x a f = elim f [ ]
  after-FirstNamed m (c ∷ cs) x a f =
      let e = after-name c (omega (arith, a.0)) in
      elim f [
        | inl (q, s) ↦ inl (e ∙ q, s)
        | inr (q, t) ↦ inr (λ z. q (sym e ∙ z), after-FirstNamed m cs x a.1 t)
      ]

  earlier : (a : ℕ) (cs : List ℕ) → All (λ c. (a < c) × (c < v.next)) cs → All (λ c. c < v.next) cs
  earlier a [] h = tt
  earlier a (c ∷ cs) h = ((h.0).1, earlier a cs h.1)

  -- The names that led to the parent and the new name lead to the new directory.
  after-Leads :
      (ns : List (List ℕ)) (a : ℕ)
      → WellFormed v
      → a < v.next
      → Leads v.dirents ns a p
      → Leads after (ns ++ name ∷ []) a v.next
  after-Leads [] a w h l = (
    v.next,
    subst (λ b. FirstNamed after name (after b).children v.next) (sym l)
        (subst (λ cs. FirstNamed after name cs v.next) (sym after-parent)
          (inl (after-dir.0, refl))),
    refl,
  )
  after-Leads (m ∷ ms) a w h (x, f, l) =
      let cs = (v.dirents a).children in
      let q = FirstNamed-All v.dirents m cs x (λ c. (a < c) × (c < v.next)) f (w.later a) in
      let r = Leads-later v ms x p w l q.1 in
      (
        x,
        subst (λ ds. FirstNamed after m ds x)
            (sym (after-other a (omega (arith, q.0, r.0)) (omega (arith, h))))
            (after-FirstNamed m cs x (earlier a cs (w.later a)) f),
        after-Leads ms x w q.1 l,
      )

  after-IsString : (b : ℕ) → WellFormed v → IsString name → IsString (after b).name
  after-IsString b w s = elim (ℕ_discrete b v.next) [
    | yes e ↦ subst (λ a. IsString (after a).name) (sym e) (subst IsString (sym after-dir.0) s)
    | no ne ↦ subst IsString (sym (after-name b ne)) (w.names b)
  ]

  later_next :
      (a : ℕ) (cs : List ℕ)
      → All (λ c. (a < c) × (c < v.next)) cs
      → All (λ c. (a < c) × (c < v.next + 1)) cs
  later_next a [] h = tt
  later_next a (c ∷ cs) h = (((h.0).0, omega (arith, (h.0).1)), later_next a cs h.1)

  after-later : (a : ℕ) → WellFormed v → All (λ c. (a < c) × (c < v.next + 1)) (after a).children
  after-later a w =
      let Later : ℕ → List ℕ → Type 0 = λ b cs. All (λ c. (b < c) × (c < v.next + 1)) cs in
      elim (ℕ_discrete a p) [
        | yes e ↦
            subst (λ b. Later b (after b).children) (sym e)
              (subst (Later p) (sym after-parent)
                ((made, omega arith), later_next p (v.dirents p).children (w.later p)))
        | no other ↦ elim (ℕ_discrete a v.next) [
          | yes e ↦
              subst (λ b. Later b (after b).children) (sym e)
                (subst (Later v.next) (sym after-dir.1) tt)
          | no ne ↦
              subst (Later a) (sym (after-other a other ne))
                (later_next a (v.dirents a).children (w.later a))
        ]
      ]

-- A new directory below a directory that is there keeps the state well formed.
pub with_dir-WellFormed :
    (v : Vfs) (p : ℕ) (name : List ℕ)
    → WellFormed v
    → p < v.next
    → IsString name
    → WellFormed (with_dir p name v)
unfolding after with_dir dirent_create dirent_add_child
with_dir-WellFormed v p name w h s = record {
  root_name = after-name v p name h 0 (omega (arith, w.root_made)) ∙ w.root_name;
  root_made = omega arith;
  names = λ a. after-IsString v p name h a w s;
  filenames = w.filenames;
  later = λ a. after-later v p name h a w;
}

pub All-snoc :
    (ns : List (List ℕ)) (n : List ℕ) → All IsEntry (ns ++ n ∷ []) → All IsEntry ns × IsEntry n
All-snoc [] n a = (tt, a.0)
All-snoc (m ∷ ms) n a = let (b, c) = All-snoc ms n a.1 in ((a.0, b), c)

-- What a function does with the two parts of a path.
pub with_parts_at :
    {A : Type 0} (ns : List (List ℕ)) (name : List ℕ) (f : List ℕ → List ℕ → Outcome A)
    → IsEntry name
    → with_parts (basepath (path_of (ns ++ name ∷ []))) (basename (path_of (ns ++ name ∷ []))) f
      ≡ f (or_root (path_of ns)) name
with_parts_at ns name f e =
    let path = joined (path_of ns) name in
    let parts = basename_lem (path_of ns) name (e.0).1 in
    ap (λ q. with_parts (basepath q) (basename q) f) (path_of-snoc ns name)
    ∙ ap (λ o. with_parts o (basename path) f) parts.1
    ∙ ap (λ o. with_parts (some (or_root (path_of ns))) o f) parts.0

find_at :
    (v : Vfs) (ns : List (List ℕ)) (name : List ℕ) (d : ℕ)
    → WellFormed v
    → All IsEntry (ns ++ name ∷ [])
    → Leads v.dirents (ns ++ name ∷ []) vfs_root d
    → dirent_find v vfs_root (path_of (ns ++ name ∷ [])) ≡ found d
find_at v [] name d w a l = (dirent_find-Leads v name [] d w a).1 l
find_at v (m ∷ ms) name d w a l = (dirent_find-Leads v m (ms ++ name ∷ []) d w a).1 l

-- `mkdir` below a directory that the names lead to makes a new directory, which `dirent_find` finds
-- at the whole path, and the state stays well formed. The state before is well formed, and no name
-- is empty or has a slash or a zero.
pub dirent_find-mkdir :
    (v : Vfs) (ns : List (List ℕ)) (name : List ℕ) (p : ℕ)
    → WellFormed v
    → All IsEntry (ns ++ name ∷ [])
    → Leads v.dirents ns vfs_root p
    → (v' : Vfs) × (mkdir (path_of (ns ++ name ∷ [])) v ≡ done v')
      × (dirent_find v' vfs_root (path_of (ns ++ name ∷ [])) ≡ found v.next)
      × WellFormed v'
unfolding mkdir with_dir after
dirent_find-mkdir v ns name p w a l =
    let (b, e) = All-snoc ns name a in
    let made = (Leads-later v ns vfs_root p w l w.root_made).1 in
    let v' = with_dir p name v in
    let w' = with_dir-WellFormed v p name w made e.1 in
    (
      v',
      with_parts_at ns name
            (λ base n.
              with_found (dirent_find v vfs_root base) λ parent. done (with_dir parent n v))
            e
          ∙ ap (λ d. with_found d λ parent. done (with_dir parent name v))
              (dirent_find_base v ns p w b l),
      find_at v' ns name v.next w' a (after-Leads v p name made ns vfs_root w w.root_made l),
      w',
    )
