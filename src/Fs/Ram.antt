-- ===== src/Fs/Ram.antt =====
-- fs/ramfs.c: files in memory, on `krealloc` of lib/crt/krealloc.c. The heap is the argument `Blocks`; a block is
-- the list of its bytes. An access outside of the block has no result. The lock of a file and the directory
-- that it is added to are no part of it. A `size_t` and an `int` have 16 bits: sums wrap, and an `int` that
-- a function answers is given by its bit pattern, so that it is negative from 2 ^ 15 on.
pub mod Bounds
pub mod RoundTrip
use etaos.Prelude.{
  keep, ℕ, zero, suc, ◌+◌, ◌-◌, ◌%◌, ◌++◌, Bool, true, false, not, ◌&&◌, ◌||◌, Option, none, some,
  List, [], ◌∷◌, if◌then◌else◌, ◌==◌, ltb, leb, length, get_elem?, take,
}

-- `struct ramfs_file`, as far as ramfs.c uses it; `appending` is STREAM_APPEND_FLAG.
pub record File : Type 0 where
  pub name : List ℕ
  pub buff : List ℕ
  pub length : ℕ
  pub index : ℕ
  pub appending : Bool
  pub rd_idx : ℕ
  pub wr_idx : ℕ

-- `memcpy` of so many bytes into a block of zeros of that size.
abbrev pub resize : ℕ → List ℕ → List ℕ
resize zero old = []
resize (suc n) [] = 0 ∷ resize n []
resize (suc n) (b ∷ old) = b ∷ resize n old

-- Whether the heap has a block of a size, and the bytes behind a block that `mm_node_size` counts for its
-- node: as many as the overhead, and what the node has over the request.
pub record Blocks : Type 0 where
  pub enough : ℕ → Bool
  pub behind : List ℕ → List ℕ

-- `krealloc`, which compares and copies the size of the old block's node.
unfoldable pub krealloc : Blocks → List ℕ → ℕ → Option (List ℕ)
krealloc heap old newsize =
    let node = old ++ heap.behind old in
    if heap.enough newsize
    then some (if length node == newsize then old else resize newsize node)
    else none

-- `ramfs_open`
unfoldable pub ramfs_open : File → File
ramfs_open f = if f.appending then record f { wr_idx = f.index } else record f { index = 0 }

-- `ramfs_close`
unfoldable pub ramfs_close : File → File
ramfs_close f = record f { rd_idx = 0; wr_idx = 0 }

-- `ramfs_expand`; `none` is -ENOMEM. The file's length stays what it was.
abbrev pub with_buff : File → Option (List ℕ) → Option File
with_buff f none = none
with_buff f (some b) = some (record f { buff = b })

unfoldable pub ramfs_expand : Blocks → File → ℕ → Option File
unfolding krealloc
ramfs_expand heap f required =
    let needed = (f.wr_idx + required) % 65536 in
    let expand = (f.length + 1 + (needed + 65536 - f.length)) % 65536 in
    if leb f.length needed then with_buff f (krealloc heap f.buff expand) else some f

-- A byte of a block is set.
abbrev pub set? : List ℕ → ℕ → ℕ → Option (List ℕ)
set? [] i c = none
set? (b ∷ bs) zero c = some (c ∷ bs)
set? (b ∷ bs) (suc i) c = keep b (set? bs i c)

-- The loop of `ramfs_write`: the block and the write index behind it.
abbrev pub and_then : Option (List ℕ) → (List ℕ → Option (List ℕ × ℕ)) → Option (List ℕ × ℕ)
and_then none f = none
and_then (some b) f = f b

unfoldable pub write_loop : ℕ → ℕ → List ℕ → List ℕ → Option (List ℕ × ℕ)
write_loop len wr [] b = some (b, wr)
write_loop len wr (c ∷ cs) b =
    let rest = and_then (set? b wr c) (λ b'. write_loop len (wr + 1) cs b') in
    if ltb wr len then rest else some (b, wr)

-- `ramfs_write`: the number that it returns, and the file.
abbrev pub written : File → ℕ → Option (List ℕ × ℕ) → Option (ℕ × File)
written f size none = none
written f size (some s) =
    some (size, record f { buff = s.0; wr_idx = s.1; index = (f.index + size) % 65536 })

unfoldable pub write_expanded : File → List ℕ → Option File → Option (ℕ × File)
unfolding write_loop
write_expanded f cbuff none = some (0, f)
write_expanded f cbuff (some e) =
    written e (length cbuff) (write_loop e.length e.wr_idx cbuff e.buff)

unfoldable pub ramfs_write : Blocks → File → List ℕ → Option (ℕ × File)
unfolding ramfs_expand write_expanded
ramfs_write heap f cbuff = write_expanded f cbuff (ramfs_expand heap f (length cbuff))

-- `ramfs_ftell`
unfoldable pub ramfs_ftell : File → ℕ
ramfs_ftell f = f.wr_idx

-- `ramfs_setindex`; `none` is -EINVAL.
unfoldable pub ramfs_setindex : File → ℕ → ℕ → Option (ℕ × File)
ramfs_setindex f index max =
    if ltb max index && not (max == 0)
    then none
    else some
        (index, if index == f.index then f else record f { index = index; rd_idx = 0; wr_idx = 0 })

pub data Whence : Type 0 where
  seek_set seek_cur seek_end : Whence

-- `ramfs_lseek`
unfoldable pub ramfs_lseek : File → ℕ → Whence → Option (ℕ × File)
unfolding ramfs_setindex
ramfs_lseek f offset seek_set = ramfs_setindex f offset 0
ramfs_lseek f offset seek_end = ramfs_setindex f ((offset + f.length) % 65536) 0
ramfs_lseek f offset seek_cur =
    if offset == 0 then some (f.index, f) else ramfs_setindex f ((f.index + offset) % 65536) 0

-- The loop of `ramfs_read`: what it stores, and the read index behind it.
abbrev pub stored : Option ℕ → Option (List ℕ × ℕ) → Option (List ℕ × ℕ)
stored none s = none
stored (some c) none = none
stored (some c) (some s) = some (c ∷ s.0, s.1)

unfoldable pub read_loop : ℕ → ℕ → ℕ → List ℕ → Option (List ℕ × ℕ)
read_loop len rd zero b = some ([], rd)
read_loop len rd (suc size) b =
    let rest = stored (get_elem? b rd) (read_loop len (rd + 1) size b) in
    if ltb rd len then rest else some ([], rd)

-- `ramfs_read`: the number that it returns, what it stores in the buffer, and the file.
abbrev pub read_end : File → ℕ → Option (List ℕ × ℕ) → Option (ℕ × List ℕ × File)
read_end f size none = none
read_end f size (some s) = some (size, s.0, record f { rd_idx = s.1 })

unfoldable pub ramfs_read : File → ℕ → Option (ℕ × List ℕ × File)
unfolding read_loop
ramfs_read f size = read_end f size (read_loop f.length f.rd_idx size f.buff)

-- `ramfs_getc`
abbrev pub got : File → Option ℕ → Option (ℕ × File)
got f none = none
got f (some c) = some (c, record f { rd_idx = (f.rd_idx + 1) % 65536 })

unfoldable pub ramfs_getc : File → Option (ℕ × File)
ramfs_getc f = got f (get_elem? f.buff f.rd_idx)

-- `ramfs_putc`; a byte is stored.
abbrev pub put_end : File → ℕ → Option (List ℕ) → Option (ℕ × File)
put_end f c none = none
put_end f c (some b) =
    some (c, record f { buff = b; wr_idx = (f.wr_idx + 1) % 65536; index = (f.index + 1) % 65536 })

abbrev pub put_expanded : File → ℕ → Option File → Option (ℕ × File)
put_expanded f c none = some (0, f)
put_expanded f c (some e) = put_end e c (set? e.buff e.wr_idx c)

unfoldable pub ramfs_putc : Blocks → ℕ → File → Option (ℕ × File)
unfolding ramfs_expand
ramfs_putc heap c f = put_expanded f c (ramfs_expand heap f 1)

-- RAMFS_BUFFER_SIZE, and `ramfs_create` for a base name, with a block of zeros.
abbrev pub buffer_size : ℕ
buffer_size = 64

unfoldable pub ramfs_create : List ℕ → File
ramfs_create basename = record {
  name = basename;
  buff = resize buffer_size [];
  length = buffer_size;
  index = 0;
  appending = false;
  rd_idx = 0;
  wr_idx = 0;
}
