-- ===== src/Crt/Memory.antt =====
-- The memory functions of lib/crt: memcpy.c, memset.c, memcmp.c and memchr.c. Memory is a function of the
-- address, and a `long` has four bytes.
pub mod Move
use etaos.Prelude.{
  ℕ, zero, suc, ◌+◌, ◌-◌, ◌*◌, ◌/◌, ◌%◌, Bool, true, false, not, ◌&&◌, ◌||◌, Option, none, some,
  if◌then◌else◌, ◌==◌, ltb, leb,
}
use etaos.Crt.{Long, plus, minus}
use etaos.Crt.Strings.{difference}

abbrev pub Bytes : Type 0
Bytes = ℕ → ℕ

abbrev pub wsize : ℕ
wsize = 4

-- `*(word *)dst = *(word *)src` for a word of `k` bytes: all of them are read before one is written.
abbrev pub copy_word : ℕ → ℕ → ℕ → Bytes → Bytes
copy_word k dst src m = λ a. if leb dst a && ltb a (dst + k) then m (src + (a - dst)) else m a

-- The loops of `memcpy`: `t` words forwards, and backwards from the ends of the two regions.
unfoldable pub copy_up : ℕ → ℕ → ℕ → ℕ → Bytes → Bytes
copy_up k zero dst src m = m
copy_up k (suc t) dst src m = copy_up k t (dst + k) (src + k) (copy_word k dst src m)

unfoldable pub copy_down : ℕ → ℕ → ℕ → ℕ → Bytes → Bytes
copy_down k zero dst src m = m
copy_down k (suc t) dst src m =
    copy_down k t (dst - k) (src - k) (copy_word k (dst - k) (src - k) m)

-- `(src | dst) & wmask` and `(src ^ dst) & wmask`
abbrev pub is_misaligned : ℕ → ℕ → Bool
is_misaligned dst src = not (src % wsize == 0) || not (dst % wsize == 0)

abbrev pub is_apart : ℕ → ℕ → Bool
is_apart dst src = not (src % wsize == dst % wsize)

-- The number of bytes that are copied one by one in front of the words, forwards and backwards.
unfoldable pub lead_up : ℕ → ℕ → ℕ → ℕ
lead_up dst src length =
    if is_misaligned dst src
    then if is_apart dst src || ltb length wsize then length else wsize - src % wsize
    else 0

unfoldable pub lead_down : ℕ → ℕ → ℕ → ℕ
lead_down dst src length =
    if is_misaligned dst src
    then if is_apart dst src || leb length wsize then length else src % wsize
    else 0

unfoldable pub forwards : ℕ → ℕ → ℕ → Bytes → Bytes
unfolding copy_up lead_up
forwards dst src length m =
    let t = lead_up dst src length in
    let words = (length - t) / wsize in
    let n = t + words * wsize in
    copy_up 1 ((length - t) % wsize) (dst + n) (src + n)
      (copy_up wsize words (dst + t) (src + t) (copy_up 1 t dst src m))

unfoldable pub backwards : ℕ → ℕ → ℕ → Bytes → Bytes
unfolding copy_down lead_down
backwards dst src length m =
    let t = lead_down (dst + length) (src + length) length in
    let words = (length - t) / wsize in
    let rest = (length - t) % wsize in
    copy_down 1 rest (dst + rest) (src + rest) (
      copy_down wsize words (dst + (length - t)) (src + (length - t))
        (copy_down 1 t (dst + length) (src + length) m))

-- `memcpy`
unfoldable pub memcpy : ℕ → ℕ → ℕ → Bytes → Bytes
unfolding forwards backwards
memcpy dst src length m =
    let up = forwards dst src length m in
    let down = backwards dst src length m in
    if (length == 0) || (dst == src) then m else if ltb dst src then up else down

-- The loop of `memset`, which counts the index up, and `memset`.
unfoldable pub set_from : ℕ → ℕ → ℕ → Bytes → Bytes
set_from data' c zero m = m
set_from data' c (suc n) m = set_from (data' + 1) c n (λ a. if a == data' then c % 256 else m a)

unfoldable pub memset : ℕ → ℕ → ℕ → Bytes → Bytes
unfolding set_from
memset dst c n m = set_from dst c n m

-- `memcmp`
unfoldable pub memcmp : ℕ → ℕ → ℕ → Bytes → Long
memcmp r1 r2 zero m = plus 0
memcmp r1 r2 (suc nbytes) m =
    let rest = memcmp (r1 + 1) (r2 + 1) nbytes m in
    if m r1 == m r2 then rest else difference (m r1) (m r2)

-- `memchr`: the address, or the null pointer.
unfoldable pub memchr : ℕ → ℕ → ℕ → Bytes → Option ℕ
memchr s c zero m = none
memchr s c (suc n) m = let rest = memchr (s + 1) c n m in if m s == c % 256 then some s else rest
