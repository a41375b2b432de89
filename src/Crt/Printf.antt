-- ===== src/Crt/Printf.antt =====
-- lib/crt/vfprintf.c and snprintf.c, fputc.c and fputs.c of the same directory, and `raw_vfs_init_buffered_file` of
-- fs/vfs.c: formatted output. The answers of `fputc` and `fputs`, which `vfprintf` does not use, are left out. An
-- `int` has 16 bits and a `long` 32, as on AVR.
pub mod Digits
pub mod Within
pub mod Text
mod Tests
use etaos.Prelude.{
  ℕ, zero, suc, ◌+◌, ◌-◌, ◌*◌, ◌/◌, ◌%◌, ◌^◌, Bool, true, false, ◌&&◌, ◌||◌, Option, none, some,
  List, [], ◌∷◌, ◌++◌, if◌then◌else◌, ◌==◌, ltb, leb,
}
use etaos.Crt.{Long, plus, minus}

-- What of `struct file` formatted output uses: the flags STREAM_WRITE_FLAG and STREAM_RW_BUFFER_FLAG, the
-- buffer, whether there is a function `put`, and what the driver got with `put` and `write`.
pub record Stream : Type 0 where
  pub is_writable : Bool
  pub is_buffered : Bool
  pub buff : ℕ → ℕ
  pub index : ℕ
  pub length : ℕ
  pub has_put : Bool
  pub sent : List ℕ

-- A store into the buffer at the index, which moves on.
abbrev pub buffer_char : ℕ → Stream → Stream
buffer_char c s = record s { buff = λ i. if i == s.index then c else s.buff i; index = s.index + 1 }

-- `fputc`; `none` is a call of a function `put` that is not there.
unfoldable pub fputc : ℕ → Stream → Option Stream
fputc c s =
    let put = if s.has_put then some (record s { sent = s.sent ++ (c ∷ []) }) else none in
    if s.is_writable
    then (if s.is_buffered && ltb s.index s.length then some (buffer_char c s) else put)
    else some s

unfoldable pub write_to_buffer : List ℕ → Stream → Stream
write_to_buffer [] s = s
write_to_buffer (c ∷ cs) s =
    let rest = write_to_buffer cs (buffer_char c s) in if ltb s.index s.length then rest else s

unfoldable pub fputs : List ℕ → Stream → Stream
unfolding write_to_buffer
fputs cs s =
    if s.is_writable
    then (if s.is_buffered then write_to_buffer cs s else record s { sent = s.sent ++ cs })
    else s

-- The character of a digit in `digx`.
abbrev pub digx : Bool → ℕ → ℕ
digx caps d = if ltb 9 d then (if caps then d + 55 else d + 87) else d + 48

-- The loops of `convert_to_num`, which fill the buffer from its end: so many places are left in front.
-- `none` is a store in front of the buffer.
unfoldable pub fill_digits : ℕ → Bool → ℕ → ℕ → List ℕ → Option (List ℕ)
fill_digits base caps zero n cp = none
fill_digits base caps (suc room) n cp =
    let cp' = digx caps (n % base) ∷ cp in
    let rest = fill_digits base caps room (n / base) cp' in if n / base == 0 then some cp' else rest

-- BUFF, less the place of the terminating zero.
abbrev pub room : ℕ
room = 15

-- A step after one that may have failed.
abbrev pub and_then : {A : Type 0} → Option A → (A → Option Stream) → Option Stream
and_then none f = none
and_then (some a) f = f a

-- `convert_to_num` for the bases 10 and 16, where the branch for one digit is the loop's first step.
unfoldable pub convert_to_num : ℕ → ℕ → Bool → Bool → Stream → Option Stream
unfolding fputc fputs fill_digits
convert_to_num num base sign caps s =
    let signed = if leb (2 ^ 63) num && sign then fputc 45 s else some s in
    let written =
      and_then signed
        (λ t. and_then (fill_digits base caps room num []) (λ cs. some (fputs cs t))) in
    if num == 0 then fputc 48 s else written

-- The variable arguments. A `double` is what `print_flt` does with it, in floating point.
pub data Arg : Type 0 where
  int long long_long pointer : ℕ → Arg
  string : List ℕ → Arg
  double : (Stream → Option Stream) → Arg

-- Where `vfprintf` stands in the format: in the text, behind a %, behind %l, or behind %ll.
pub data Place : Type 0 where
  text percent percent_l percent_ll : Place

-- What is printed of an argument of the type that the code reads. `none` is an argument that is
-- missing or of another type.
abbrev pub print_int : ℕ → Bool → Bool → List Arg → Stream → Option Stream
unfolding convert_to_num
print_int base sign caps (int n ∷ _) s = convert_to_num n base sign caps s
print_int base sign caps _ s = none

abbrev pub print_long : Bool → List Arg → Stream → Option Stream
unfolding convert_to_num
print_long sign (long n ∷ _) s = convert_to_num n 10 sign false s
print_long sign _ s = none

abbrev pub print_long_long : Bool → List Arg → Stream → Option Stream
unfolding convert_to_num
print_long_long sign (long_long n ∷ _) s = convert_to_num n 10 sign false s
print_long_long sign _ s = none

abbrev pub print_pointer : List Arg → Stream → Option Stream
unfolding convert_to_num
print_pointer (pointer n ∷ _) s = convert_to_num n 16 false true s
print_pointer _ s = none

abbrev pub print_char : List Arg → Stream → Option Stream
unfolding fputc
print_char (int n ∷ _) s = fputc (n % 256) s
print_char _ s = none

abbrev pub print_string : List Arg → Stream → Option Stream
unfolding fputs
print_string (string cs ∷ _) s = some (fputs cs s)
print_string _ s = none

abbrev pub print_double : List Arg → Stream → Option Stream
print_double (double f ∷ _) s = f s
print_double _ s = none

abbrev pub next_args : List Arg → List Arg
next_args [] = []
next_args (_ ∷ va) = va

-- The cases behind a % but `l`: what is left of the arguments, and what is done.
unfoldable pub convert : ℕ → List Arg → Stream → List Arg × Option Stream
unfolding print_int print_pointer print_char print_string fputc
convert c va s =
    if (c == 100) || (c == 105)
    then (next_args va, print_int 10 true false va s)
    else if c == 117
    then (next_args va, print_int 10 false false va s)
    else if c == 120
    then (next_args va, print_int 16 false false va s)
    else if c == 102
    then (next_args va, print_double va s)
    else if c == 112
    then (next_args va, print_pointer va s)
    else if c == 88
    then (next_args va, print_int 16 false true va s)
    else if c == 99
    then (next_args va, print_char va s)
    else if c == 115
    then (next_args va, print_string va s)
    else if c == 37
    then (va, fputc 37 s)
    else (va, some s)

-- `vfprintf_long_int`, behind %l, but for a second `l`; and behind %ll.
unfoldable pub convert_long : ℕ → List Arg → Stream → List Arg × Option Stream
unfolding print_long
convert_long c va s =
    if (c == 105) || (c == 100)
    then (next_args va, print_long true va s)
    else if c == 117
    then (next_args va, print_long false va s)
    else (va, some s)

unfoldable pub convert_long_long : ℕ → List Arg → Stream → List Arg × Option Stream
unfolding print_long_long
convert_long_long c va s = (next_args va, print_long_long ((c == 105) || (c == 100)) va s)

-- `vfprintf` from a place in the format. `none` is a fault of what it calls, or a read behind the end
-- of the format, where that ends in the middle of a conversion.
unfoldable pub vfprintf : Place → List ℕ → List Arg → Stream → Option Stream
unfolding convert convert_long convert_long_long fputc
vfprintf text [] va s = some s
vfprintf percent [] va s = none
vfprintf percent_l [] va s = none
vfprintf percent_ll [] va s = none
vfprintf text (c ∷ cs) va s =
    let plain = and_then (fputc c s) (λ t. vfprintf text cs va t) in
    let directive = vfprintf percent cs va s in if c == 37 then directive else plain
vfprintf percent (c ∷ cs) va s =
    let r = convert c va s in
    let other = and_then r.1 (λ t. vfprintf text cs r.0 t) in
    let l = vfprintf percent_l cs va s in if c == 108 then l else other
vfprintf percent_l (c ∷ cs) va s =
    let r = convert_long c va s in
    let other = and_then r.1 (λ t. vfprintf text cs r.0 t) in
    let l = vfprintf percent_ll cs va s in if c == 108 then l else other
vfprintf percent_ll (c ∷ cs) va s =
    let r = convert_long_long c va s in and_then r.1 (λ t. vfprintf text cs r.0 t)

-- `raw_vfs_init_buffered_file` with a buffer.
unfoldable pub init_buffered : ℕ → (ℕ → ℕ) → Stream → Stream
init_buffered n buf f = record f {
  is_writable = true;
  is_buffered = true;
  buff = buf;
  length = n;
  index = 0;
}

-- A `size_t` as an `int`: from 2 ^ 15 on it is negative.
abbrev pub int_of : ℕ → Long
int_of n = if ltb n 32768 then plus n else minus (65536 - n)

-- The end of `snprintf`: the result of `vfprintf`, which is the file's length, and the terminating zero.
abbrev pub terminated : Stream → Long × (ℕ → ℕ)
terminated s = (int_of s.length, λ i. if i == s.index then 0 else s.buff i)

abbrev pub or_fault : Option Stream → Option (Long × (ℕ → ℕ))
or_fault none = none
or_fault (some s) = some (terminated s)

-- `snprintf` on the file `f` of its frame, of which nothing is set before.
unfoldable pub snprintf : (ℕ → ℕ) → ℕ → List ℕ → List Arg → Stream → Option (Long × (ℕ → ℕ))
unfolding vfprintf init_buffered
snprintf s length fmt va f =
    or_fault (vfprintf text fmt va (init_buffered ((length + 65535) % 65536) s f))
