-- ===== src/Crt/Printf/Within.antt =====
-- The bounds of the buffer of `snprintf`.
use etaos.Prelude.{ℕ, ◌≤◌, ◌≡◌, Bool, true, Option, none, some, List, [], ◌∷◌}
use etaos.Crt.Printf.{
  Stream, Arg, int, long, long_long, pointer, string, double, print_int, print_long,
  print_long_long, print_pointer, print_char, print_string, print_double,
}

-- A buffered stream of the length `m` whose buffer is `buf` behind that length.
pub record Held (m : ℕ) (buf : ℕ → ℕ) (s : Stream) : Type 0 where
  pub buffered : s.is_buffered ≡ true
  pub as_long : s.length ≡ m
  pub inside : s.index ≤ m
  pub rest : (i : ℕ) → m ≤ i → s.buff i ≡ buf i

-- A predicate of the stream that a step leaves, if it leaves one.
abbrev pub Leaves : (Stream → Type 0) → Option Stream → Type 0
Leaves P none = Unit
Leaves P (some s) = P s

abbrev pub NoDouble : List Arg → Type 0
NoDouble [] = Unit
NoDouble (int n ∷ va) = NoDouble va
NoDouble (long n ∷ va) = NoDouble va
NoDouble (long_long n ∷ va) = NoDouble va
NoDouble (pointer n ∷ va) = NoDouble va
NoDouble (string cs ∷ va) = NoDouble va
NoDouble (double f ∷ va) = ⊥

module _ (m : ℕ) (buf : ℕ → ℕ) where
  -- What a conversion leaves: arguments without a `double`, and such a stream.
  abbrev Kept : List Arg × Option Stream → Type 0
  Kept r = NoDouble r.0 × Leaves (Held m buf) r.1

  -- What each conversion does with the first argument.
  record Printed (va : List Arg) (s : Stream) : Type 0 where
    an_int : (b : ℕ) (sign caps : Bool) → Leaves (Held m buf) (print_int b sign caps va s)
    a_long : (sign : Bool) → Leaves (Held m buf) (print_long sign va s)
    a_long_long : (sign : Bool) → Leaves (Held m buf) (print_long_long sign va s)
    a_pointer : Leaves (Held m buf) (print_pointer va s)
    a_char : Leaves (Held m buf) (print_char va s)
    a_string : Leaves (Held m buf) (print_string va s)
    a_double : Leaves (Held m buf) (print_double va s)
