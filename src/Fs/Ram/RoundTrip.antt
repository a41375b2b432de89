-- ===== src/Fs/Ram/RoundTrip.antt =====
-- Reading back what is written to a file of fs/ramfs.c.
use etaos.Prelude.{
  take-drop, length-take, length-drop, keep, ℕ, zero, suc, ◌+◌, ◌-◌, ◌%◌, ◌≤◌, ◌<◌, ◌≡◌, refl, sym,
  ap, subst, ◌∙◌, true, false, Option, some, List, [], ◌∷◌, ◌++◌, if◌then◌else◌, ltb, arith, length,
  length-append, get_elem?, take, drop,
}
use etaos.Fs.Ram.{
  Blocks, File, set?, and_then, write_loop, written, write_expanded, ramfs_write, stored, read_loop,
  read_end, ramfs_read,
}
use etaos.Fs.Ram.Bounds.{InBounds, ramfs_expand-Expanded, ramfs_expand-some}

snoc-append : (pre ys : List ℕ) (c : ℕ) → (pre ++ c ∷ []) ++ ys ≡ pre ++ c ∷ ys
snoc-append [] ys c = refl
snoc-append (x ∷ pre) ys c = ap (λ zs. x ∷ zs) (snoc-append pre ys c)

set?-behind :
    (pre room : List ℕ) (r c : ℕ) → set? (pre ++ r ∷ room) (length pre) c ≡ some (pre ++ c ∷ room)
set?-behind [] room r c = refl
set?-behind (x ∷ pre) room r c = ap (keep x) (set?-behind pre room r c)

get_elem?-behind : (pre room : List ℕ) (r : ℕ) → get_elem? (pre ++ r ∷ room) (length pre) ≡ some r
get_elem?-behind [] room r = refl
get_elem?-behind (x ∷ pre) room r = get_elem?-behind pre room r

length-snoc : (pre : List ℕ) (c : ℕ) → length (pre ++ c ∷ []) ≡ length pre + 1
length-snoc pre c = length-append pre (c ∷ [])

-- The bytes that fit are behind the write index, and what stood behind them is kept.
write_loop_lem :
    (k len : ℕ) (xs pre room : List ℕ)
    → len - length pre ≡ k
    → len ≤ length pre + length room
    → write_loop len (length pre) xs (pre ++ room)
      ≡ some (pre ++ (take k xs ++ drop (length (take k xs)) room), length pre + length (take k xs))
unfolding write_loop
write_loop_lem zero len [] pre room e h = ap (λ n. some (pre ++ room, n)) (omega arith)
write_loop_lem (suc k) len [] pre room e h = ap (λ n. some (pre ++ room, n)) (omega arith)
write_loop_lem zero len (c ∷ cs) pre room e h =
    let rest =
      and_then (set? (pre ++ room) (length pre) c) (λ b'. write_loop len (length pre + 1) cs b') in
    let full : ltb (length pre) len ≡ false = ground arith in
    ap (λ t. if t then rest else some (pre ++ room, length pre)) full
    ∙ ap (λ n. some (pre ++ room, n)) (omega arith)
write_loop_lem (suc k) len (c ∷ cs) pre [] e h = ground arith
write_loop_lem (suc k) len (c ∷ cs) pre (r ∷ room) e h =
    let go : List ℕ → Option (List ℕ × ℕ) = λ b. write_loop len (length pre + 1) cs b in
    let rest = and_then (set? (pre ++ r ∷ room) (length pre) c) go in
    let more : ltb (length pre) len ≡ true = ground arith in
    let l = length-snoc pre c in
    let tail = take k cs ++ drop (length (take k cs)) room in
    let ih =
      write_loop_lem k len cs (pre ++ c ∷ []) room (omega (arith, e, l)) (omega (arith, h, l)) in
    ap (λ t. if t then rest else some (pre ++ r ∷ room, length pre)) more
    ∙ ap (λ o. and_then o go) (set?-behind pre room r c)
    ∙ ap go (sym (snoc-append pre room c))
    ∙ ap (λ n. write_loop len n cs ((pre ++ c ∷ []) ++ room)) (sym l)
    ∙ ih
    ∙ ap (λ b. some (b, length (pre ++ c ∷ []) + length (take k cs))) (snoc-append pre tail c)
    ∙ ap (λ n. some (pre ++ c ∷ tail, n)) (omega (arith, l))

read_loop_lem :
    (k len n : ℕ) (pre room : List ℕ)
    → len - length pre ≡ k
    → len ≤ length pre + length room
    → read_loop len (length pre) n (pre ++ room)
      ≡ some (take n (take k room), length pre + length (take n (take k room)))
unfolding read_loop
read_loop_lem k len zero pre room e h = ap (λ n. some ([], n)) (omega arith)
read_loop_lem zero len (suc n) pre room e h =
    let rest =
      stored (get_elem? (pre ++ room) (length pre))
        (read_loop len (length pre + 1) n (pre ++ room)) in
    let full : ltb (length pre) len ≡ false = ground arith in
    ap (λ t. if t then rest else some ([], length pre)) full ∙ ap (λ m. some ([], m)) (omega arith)
read_loop_lem (suc k) len (suc n) pre [] e h = ground arith
read_loop_lem (suc k) len (suc n) pre (r ∷ room) e h =
    let all = pre ++ r ∷ room in
    let rest = stored (get_elem? all (length pre)) (read_loop len (length pre + 1) n all) in
    let more : ltb (length pre) len ≡ true = ground arith in
    let l = length-snoc pre r in
    let got = take n (take k room) in
    let ih =
      read_loop_lem k len n (pre ++ r ∷ []) room (omega (arith, e, l)) (omega (arith, h, l)) in
    ap (λ t. if t then rest else some ([], length pre)) more
    ∙ ap (λ o. stored o (read_loop len (length pre + 1) n all)) (get_elem?-behind pre room r)
    ∙ ap (λ b. stored (some r) (read_loop len (length pre + 1) n b)) (sym (snoc-append pre room r))
    ∙ ap (λ m. stored (some r) (read_loop len m n ((pre ++ r ∷ []) ++ room))) (sym l)
    ∙ ap (stored (some r)) ih
    ∙ ap (λ m. some (r ∷ got, m)) (omega (arith, l))

take-take : (k : ℕ) (xs ys : List ℕ) → take (length xs) (take k (take k xs ++ ys)) ≡ take k xs
take-take zero [] ys = refl
take-take zero (x ∷ xs) ys = refl
take-take (suc k) [] ys = refl
take-take (suc k) (x ∷ xs) ys = ap (λ zs. x ∷ zs) (take-take k xs ys)

-- The two loops one after the other, on a block whose front is `pre`.
read-write_loop :
    (len : ℕ) (xs pre room : List ℕ)
    → len ≤ length pre + length room
    → (b : List ℕ) × (w r : ℕ) × (write_loop len (length pre) xs (pre ++ room) ≡ some (b, w))
      × (read_loop len (length pre) (length xs) b ≡ some (take (len - length pre) xs, r))
read-write_loop len xs pre room h =
    let k = len - length pre in
    let kept = take k xs in
    let tail = kept ++ drop (length kept) room in
    let got = take (length xs) (take k tail) in
    let fits : len ≤ length pre + length tail =
      omega
        (arith, h, length-append kept (drop (length kept) room), length-drop (length kept) room) in
    (
      pre ++ tail,
      length pre + length kept,
      length pre + length got,
      write_loop_lem k len xs pre room refl h,
      read_loop_lem k len (length xs) pre tail refl fits
          ∙ ap (λ ys. some (ys, length pre + length got))
              (take-take k xs (drop (length kept) room)),
    )

-- The two loops at the write index of a file that has room.
read-write_file :
    (e : File) (xs : List ℕ)
    → InBounds e
    → e.wr_idx ≤ length e.buff
    → (b : List ℕ) × (w r : ℕ) × (write_loop e.length e.wr_idx xs e.buff ≡ some (b, w))
      × (read_loop e.length e.wr_idx (length xs) b ≡ some (take (e.length - e.wr_idx) xs, r))
read-write_file e xs i h =
    let pre = take e.wr_idx e.buff in
    let room = drop e.wr_idx e.buff in
    let l = length-take e.wr_idx e.buff h in
    let (b, w, r, p, q) =
      read-write_loop e.length xs pre room (omega (arith, i, l, h, length-drop e.wr_idx e.buff)) in
    (
      b,
      w,
      r,
      subst (λ z. write_loop e.length e.wr_idx xs z ≡ some (b, w)) (take-drop e.wr_idx e.buff)
          (subst (λ n. write_loop e.length n xs (pre ++ room) ≡ some (b, w)) l p),
      subst (λ n. read_loop e.length n (length xs) b ≡ some (take (e.length - n) xs, r)) l q,
    )

-- With memory for the block that is asked for, and where no sum wraps, what is written to a file and
-- read back is the part of it in front of the file's length, while `ramfs_write` returns the whole
-- size. The file's block holds its length, and the read index is the write index, within it.
pub ramfs_read-ramfs_write :
    (heap : Blocks) (f : File) (xs : List ℕ)
    → f.wr_idx + length xs < 65535
    → heap.enough (f.wr_idx + length xs + 1) ≡ true
    → InBounds f
    → f.wr_idx ≤ f.length
    → f.rd_idx ≡ f.wr_idx
    → (g h : File) × (ramfs_write heap f xs ≡ some (length xs, g))
      × (ramfs_read g (length xs) ≡ some (length xs, take (f.length - f.wr_idx) xs, h))
unfolding ramfs_write ramfs_read write_expanded
ramfs_read-ramfs_write heap f xs small a i inside q =
    let (e, y) = ramfs_expand-some heap f (length xs) small a in
    let x = ramfs_expand-Expanded heap f e (length xs) i small y in
    let bounds = x.bounds in
    let (b, w, r, p, s) =
      read-write_file e xs bounds (omega (arith, bounds, inside, x.same_wr, x.same_length)) in
    let g = record e { buff = b; wr_idx = w; index = (e.index + length xs) % 65536 } in
    let at_wr : e.rd_idx ≡ e.wr_idx = x.same_rd ∙ q ∙ sym x.same_wr in
    (
      g,
      record g { rd_idx = r },
      ap (write_expanded f xs) y ∙ ap (written e (length xs)) p,
      ap (λ n. read_end g (length xs) (read_loop e.length n (length xs) b)) at_wr
          ∙ ap (read_end g (length xs)) s
          ∙ ap (λ n. some (length xs, take n xs, record g { rd_idx = r }))
              (omega (arith, x.same_length, x.same_wr)),
    )
