-- ===== src/Fs/Rom.antt =====
-- fs/romfs.c: files of program memory. What `romfs_open` reads from the flash device is an argument: the
-- file's bytes, or none if the device cannot be opened. Memory does not run out.
pub mod Whole
use etaos.Prelude.{
  ℕ, zero, suc, ◌+◌, ◌-◌, ◌<◌, Bool, true, false, Option, none, some, List, [], ◌∷◌, ◌++◌,
  if◌then◌else◌, ◌==◌, ltb, leb, get_elem?, take, drop,
}

-- What romfs.c uses of `struct file`; `data` is the copy in data memory.
pub record RomFile : Type 0 where
  pub name : List ℕ
  pub contents : Option (List ℕ)
  pub length : ℕ
  pub index : ℕ
  pub uses : ℕ

-- `romfs_setup_file`: the length of an entry counts its last byte, which is left out.
unfoldable pub romfs_setup_file : List ℕ → ℕ → RomFile
romfs_setup_file name length = record {
  name = name;
  contents = none;
  length = length - 1;
  index = 0;
  uses = 0;
}

-- What `romfs_open` answers: -EEXIST, -EBADF or -EOK.
pub data RomOpened : Type 0 where
  exists no_flash opened : RomOpened

abbrev pub copied : Option (List ℕ) → RomFile → RomOpened × RomFile
copied none f = (no_flash, f)
copied (some bytes) f =
    (opened, record f { contents = some (take f.length bytes); uses = f.uses + 1 })

abbrev pub open_rom : Option (List ℕ) → RomFile → Option (List ℕ) → RomOpened × RomFile
open_rom flash f (some bytes) = (exists, f)
open_rom flash f none = copied flash f

unfoldable pub romfs_open : Option (List ℕ) → RomFile → RomOpened × RomFile
romfs_open flash f = open_rom flash f f.contents

-- `romfs_close`, of a file that is open.
unfoldable pub romfs_close : RomFile → RomFile
romfs_close f =
    if f.uses == 1
    then record f { contents = none; index = 0; uses = 0 }
    else record f { uses = f.uses - 1 }

-- What reading comes to: a result, -EOF, or the null pointer of a file that is not open.
pub data RomRead (A : Type 0) : Type 0 where
  got : A → RomRead A
  eof not_open : RomRead A

-- `romfs_read`: the bytes, whose number it returns, and the file.
abbrev pub read_bytes : ℕ → RomFile → Option (List ℕ) → RomRead (List ℕ × RomFile)
read_bytes len f none = not_open
read_bytes len f (some bytes) =
    let readable = if ltb (f.length - f.index) len then f.length - f.index else len in
    got (take readable (drop f.index bytes), record f { index = f.index + readable })

unfoldable pub romfs_read : RomFile → ℕ → RomRead (List ℕ × RomFile)
romfs_read f len =
    let read = read_bytes len f f.contents in if leb f.length f.index then eof else read

-- `romfs_getc`
abbrev pub read_byte : RomFile → Option ℕ → RomRead (ℕ × RomFile)
read_byte f none = not_open
read_byte f (some c) = got (c, record f { index = f.index + 1 })

abbrev pub byte_at : ℕ → Option (List ℕ) → Option ℕ
byte_at i none = none
byte_at i (some bytes) = get_elem? bytes i

unfoldable pub romfs_getc : RomFile → RomRead (ℕ × RomFile)
romfs_getc f =
    let read = read_byte f (byte_at f.index f.contents) in
    if leb f.length f.index then eof else read

-- A client that reads pieces of so many bytes until the end of the file, in so many calls at most.
abbrev pub put_before : List ℕ → Option (List ℕ) → Option (List ℕ)
put_before b none = none
put_before b (some bs) = some (b ++ bs)

abbrev pub onwards : RomRead (List ℕ × RomFile) → (RomFile → Option (List ℕ)) → Option (List ℕ)
onwards eof more = some []
onwards not_open more = none
onwards (got (b, f)) more = put_before b (more f)

unfoldable pub read_pieces : ℕ → ℕ → RomFile → Option (List ℕ)
unfolding romfs_read
read_pieces zero len f = none
read_pieces (suc calls) len f = onwards (romfs_read f len) (λ g. read_pieces calls len g)
