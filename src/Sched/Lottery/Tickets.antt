-- ===== src/Sched/Lottery/Tickets.antt =====
-- Every ticket is in one place: in the pool, or with one thread.
use etaos.Prelude.{
  ℕ, zero, suc, ◌+◌, ◌≤◌, ◌<◌, ◌≡◌, ◌≢◌, ◌⊎◌, refl, sym, ap, ◌∙◌, subst, inl, inr, Bool, true,
  false, Option, none, some, List, [], ◌∷◌, if◌then◌else◌, ◌==◌, ltb, length, arith, Bool-cases,
  ==_iff,
}
use etaos.Sched.Kernel.{Kernel}
use etaos.Sched.Lottery.{
  Pool, made, generate_tickets, take_first, is_empty, take_ticket, take_tickets, ticket_count,
  lottery_add_thread, return_all, lottery_kill_thread, lottery_resize_size,
}

-- How often a ticket is in a list.
abbrev pub times : ℕ → List ℕ → ℕ
times x [] = 0
times x (y ∷ ys) = (if y == x then 1 else 0) + times x ys

abbrev pub issued : ℕ → ℕ → ℕ
issued x num = if ltb x num then 1 else 0

-- From one state to another, a ticket is as often with thread `t` and in the pool as before, and once more
-- if it is new; the other threads keep their tickets.
pub record Kept (t : ℕ) (p q : Pool) : Type 0 where
  pub balance :
      (x : ℕ)
      → times x q.tickets + times x (q.held t) + issued x p.num
        ≡ times x p.tickets + times x (p.held t) + issued x q.num
  pub others : (u : ℕ) → u ≢ t → q.held u ≡ p.held u
  pub grows : p.num ≤ q.num

Kept-refl : (t : ℕ) (p : Pool) → Kept t p p
Kept-refl t p = record { balance = λ x. refl; others = λ u ne. refl; grows = omega arith }

Kept-trans : (t : ℕ) (p q r : Pool) → Kept t p q → Kept t q r → Kept t p r
Kept-trans t p q r a b = record {
  balance = λ x. omega (arith, a.balance x, b.balance x);
  others = λ u ne. b.others u ne ∙ a.others u ne;
  grows = omega (arith, a.grows, b.grows);
}

made-Kept : (t : ℕ) (p : Pool) → Kept t p (made p)
made-Kept t p = record { balance = λ x. ground arith; others = λ u ne. refl; grows = omega arith }

generate-Kept : (t n : ℕ) (p : Pool) → Kept t p (generate_tickets n p)
unfolding generate_tickets
generate-Kept t zero p = Kept-refl t p
generate-Kept t (suc n) p =
    let rest = generate_tickets n (made p) in
    elim (Bool-cases (p.memory == 0)) [
      | inl e ↦ subst (λ b. Kept t p (if b then p else rest)) (sym e) (Kept-refl t p)
      | inr e ↦
          subst (λ b. Kept t p (if b then p else rest)) (sym e)
            (Kept-trans t p (made p) rest (made-Kept t p) (generate-Kept t n (made p)))
    ]

-- What a step leaves that may fault.
abbrev pub Leaves : (Pool → Type 0) → Option Pool → Type 0
Leaves P none = Unit
Leaves P (some p) = P p

first-Kept :
    (t : ℕ) (p : Pool) (xs : List ℕ) → p.tickets ≡ xs → Leaves (Kept t p) (take_first t p xs)
first-Kept t p [] e = tt
first-Kept t p (x ∷ xs) e = record {
  balance = λ y.
      let mine : times y (if t == t then x ∷ p.held t else p.held t)
          ≡ (if x == y then 1 else 0) + times y (p.held t) =
        rw ((==_iff t t).1 refl) refl in
      omega (arith, mine, ap (times y) e);
  others = λ u ne. ground (arith, ne);
  grows = omega arith;
}

Leaves-trans :
    (t : ℕ) (p q : Pool) (o : Option Pool) → Kept t p q → Leaves (Kept t q) o → Leaves (Kept t p) o
Leaves-trans t p q none a b = tt
Leaves-trans t p q (some r) a b = Kept-trans t p q r a b

take_ticket-Kept : (t : ℕ) (p : Pool) → Leaves (Kept t p) (take_ticket t p)
unfolding take_ticket
take_ticket-Kept t p =
    let more = generate_tickets lottery_resize_size p in
    let q = if is_empty p.tickets then more else p in
    let kept : Kept t p q = elim (Bool-cases (is_empty p.tickets)) [
      | inl e ↦
          subst (λ b. Kept t p (if b then more else p)) (sym e)
            (generate-Kept t lottery_resize_size p)
      | inr e ↦ subst (λ b. Kept t p (if b then more else p)) (sym e) (Kept-refl t p)
    ] in
    Leaves-trans t p q (take_first t q q.tickets) kept (first-Kept t q q.tickets refl)

take_tickets-Kept :
    (t n : ℕ) (p : Pool) (o : Option Pool)
    → Leaves (Kept t p) o
    → Leaves (Kept t p) (take_tickets t n o)
unfolding take_tickets
take_tickets-Kept t n p none h = tt
take_tickets-Kept t zero p (some q) h = h
take_tickets-Kept t (suc n) p (some q) h =
    take_tickets-Kept t n p (take_ticket t q)
      (Leaves-trans t p q (take_ticket t q) h (take_ticket-Kept t q))

pub add_thread-Kept :
    (t : ℕ) (p : Pool) (k : Kernel) → Leaves (Kept t p) (lottery_add_thread t p k).0
unfolding lottery_add_thread
add_thread-Kept t p k =
    let taken = take_tickets t (ticket_count (k.threads t).prio) (some p) in
    elim (Bool-cases (is_empty (p.held t))) [
      | inl e ↦
          subst (λ b. Leaves (Kept t p) (if b then taken else some p)) (sym e)
            (take_tickets-Kept t (ticket_count (k.threads t).prio) p (some p) (Kept-refl t p))
      | inr e ↦ subst (λ b. Leaves (Kept t p) (if b then taken else some p)) (sym e) (Kept-refl t p)
    ]

times-return_all :
    (x : ℕ) (xs pool : List ℕ) → times x (return_all xs pool) ≡ times x xs + times x pool
times-return_all x [] pool = omega arith
times-return_all x (y ∷ ys) pool = omega (arith, times-return_all x ys (y ∷ pool))

pub kill_thread-Kept : (t : ℕ) (p : Pool) → Kept t p (lottery_kill_thread t p)
unfolding lottery_kill_thread
kill_thread-Kept t p = record {
  balance = λ x.
      let none_left : times x (if t == t then [] else p.held t) ≡ 0 =
        rw ((==_iff t t).1 refl) refl in
      omega (arith, none_left, times-return_all x (p.held t) p.tickets);
  others = λ u ne. ground (arith, ne);
  grows = omega arith;
}

-- A ticket is with the threads of a list as often as it is with each of them.
abbrev pub shared : ℕ → (ℕ → List ℕ) → List ℕ → ℕ
shared x held [] = 0
shared x held (t ∷ ts) = times x (held t) + shared x held ts

abbrev pub Absent : ℕ → List ℕ → Type 0
Absent t [] = Unit
Absent t (u ∷ us) = (u ≢ t) × Absent t us

abbrev pub NoDup : List ℕ → Type 0
NoDup [] = Unit
NoDup (t ∷ ts) = Absent t ts × NoDup ts

-- Of the threads of a list, which are all the class has, and the pool, exactly one has each ticket.
abbrev pub OnePlace : List ℕ → Pool → Type 0
OnePlace ts p = (x : ℕ) → times x p.tickets + shared x p.held ts ≡ issued x p.num

abbrev pub Among : ℕ → List ℕ → Type 0
Among t [] = ⊥
Among t (u ∷ us) = (u ≡ t) ⊎ Among t us

shared-Absent :
    (x t : ℕ) (p q : Pool) (ts : List ℕ)
    → Kept t p q
    → Absent t ts
    → shared x q.held ts ≡ shared x p.held ts
shared-Absent x t p q [] k a = refl
shared-Absent x t p q (u ∷ us) k a =
    omega (arith, ap (times x) (k.others u a.0), shared-Absent x t p q us k a.1)

apart : (t u : ℕ) (us : List ℕ) → Absent u us → Among t us → u ≢ t
apart t u [] a i e = absurd i
apart t u (v ∷ vs) a (inl e') e = a.0 (e' ∙ sym e)
apart t u (v ∷ vs) a (inr i) e = apart t u vs a.1 i e

shared-Kept :
    (x t : ℕ) (p q : Pool) (ts : List ℕ)
    → Kept t p q
    → NoDup ts
    → Among t ts
    → shared x q.held ts + times x (p.held t) ≡ shared x p.held ts + times x (q.held t)
shared-Kept x t p q [] k d i = absurd i
shared-Kept x t p q (u ∷ us) k d (inl e) =
    let rest = shared-Absent x u p q us (subst (λ v. Kept v p q) (sym e) k) d.0 in
    omega (arith, rest, ap (λ v. times x (p.held v)) e, ap (λ v. times x (q.held v)) e)
shared-Kept x t p q (u ∷ us) k d (inr i) =
    let ne = apart t u us d.0 i in
    omega (arith, shared-Kept x t p q us k d.1 i, ap (times x) (k.others u ne))

OnePlace-Kept :
    (ts : List ℕ) (t : ℕ) (p q : Pool)
    → Kept t p q
    → NoDup ts
    → Among t ts
    → OnePlace ts p
    → OnePlace ts q
OnePlace-Kept ts t p q k d i one x = omega (arith, k.balance x, shared-Kept x t p q ts k d i, one x)

-- The tickets that are free, or that memory is left for.
abbrev pub available : Pool → ℕ
available p = length p.tickets + p.memory

generate_available :
    (n : ℕ) (p : Pool)
    → (available (generate_tickets n p) ≡ available p)
      × (length p.tickets ≤ length (generate_tickets n p).tickets)
unfolding generate_tickets
generate_available zero p = (refl, omega arith)
generate_available (suc n) p =
    let rest = generate_tickets n (made p) in
    let good = λ (q : Pool). (available q ≡ available p) × (length p.tickets ≤ length q.tickets) in
    let (same, more) = generate_available n (made p) in
    elim (Bool-cases (p.memory == 0)) [
      | inl e ↦ subst (λ b. good (if b then p else rest)) (sym e) (refl, omega arith)
      | inr e ↦
          subst (λ b. good (if b then p else rest)) (sym e)
            (ground (arith, e, same), omega (arith, more))
    ]

generate_one :
    (n : ℕ) (p : Pool) → 0 < p.memory → generate_tickets (suc n) p ≡ generate_tickets n (made p)
unfolding generate_tickets
generate_one n p h =
    let e : (p.memory == 0) ≡ false = ground (arith, h) in
    ap (λ b. if b then p else generate_tickets n (made p)) e

-- A ticket that is there, or can be made, is taken.
Takes : ℕ → Option Pool → Type 0
Takes n none = ⊥
Takes n (some q) = n ≤ available q

take_first_some :
    (t n : ℕ) (p : Pool) (xs : List ℕ)
    → 0 < length xs
    → n < length xs + p.memory
    → Takes n (take_first t p xs)
unfolding Takes
take_first_some t n p [] h a = absurd (omega arith)
take_first_some t n p (x ∷ xs) h a = omega (arith, a)

take_ticket_some : (t n : ℕ) (p : Pool) → n < available p → Takes n (take_ticket t p)
unfolding take_ticket
take_ticket_some t n p h =
    let more = generate_tickets lottery_resize_size p in
    let pick = λ (b : Bool).
      Takes n (take_first t (if b then more else p) (if b then more else p).tickets) in
    let (same, grown) = generate_available lottery_resize_size p in
    elim (Bool-cases (is_empty p.tickets)) [
      | inl e ↦
          let none_there = empty_length p.tickets e in
          let one = generate_one 4 p (omega (arith, h, none_there)) in
          let there = (generate_available 4 (made p)).1 in
          subst pick (sym e) (
            take_first_some t n more more.tickets
              (omega (arith, there, ap (λ (q : Pool). length q.tickets) one))
              (omega (arith, same, h)))
      | inr e ↦ subst pick (sym e) (take_first_some t n p p.tickets (nonempty_length p.tickets e) h)
    ]
  where
    empty_length : (xs : List ℕ) → is_empty xs ≡ true → length xs ≡ 0
    empty_length [] e = refl
    empty_length (x ∷ xs) e = ground (arith, e)

    nonempty_length : (xs : List ℕ) → is_empty xs ≡ false → 0 < length xs
    nonempty_length [] e = ground (arith, e)
    nonempty_length (x ∷ xs) e = omega arith

take_tickets_some : (t n : ℕ) (o : Option Pool) → Takes n o → Takes 0 (take_tickets t n o)
unfolding take_tickets Takes
take_tickets_some t n none h = h
take_tickets_some t zero (some p) h = omega arith
take_tickets_some t (suc n) (some p) h =
    take_tickets_some t n (take_ticket t p) (take_ticket_some t n p (omega (arith, h)))

add_thread_some :
    (t : ℕ) (p : Pool) (k : Kernel)
    → ticket_count (k.threads t).prio ≤ available p
    → Takes 0 (lottery_add_thread t p k).0
unfolding lottery_add_thread Takes
add_thread_some t p k h =
    let taken = take_tickets t (ticket_count (k.threads t).prio) (some p) in
    elim (Bool-cases (is_empty (p.held t))) [
      | inl e ↦
          subst (λ b. Takes 0 (if b then taken else some p)) (sym e)
            (take_tickets_some t (ticket_count (k.threads t).prio) (some p) h)
      | inr e ↦ subst (λ b. Takes 0 (if b then taken else some p)) (sym e) (omega arith)
    ]

both :
    (P : Pool → Type 0) (o : Option Pool) → Leaves P o → Takes 0 o → (q : Pool) × (o ≡ some q) × P q
unfolding Takes
both P none l h = absurd h
both P (some q) l h = (q, refl, l)

-- Where each ticket is in exactly one place, in the pool or with one of the threads, it stays so:
-- when a thread is added, which succeeds if as many tickets as its priority has are free or can be
-- made, and when a thread is killed.
pub lottery_add_thread-OnePlace :
    (ts : List ℕ) (t : ℕ) (p : Pool) (k : Kernel)
    → NoDup ts
    → Among t ts
    → OnePlace ts p
    → ticket_count (k.threads t).prio ≤ available p
    → ((q : Pool) × ((lottery_add_thread t p k).0 ≡ some q) × OnePlace ts q)
      × OnePlace ts (lottery_kill_thread t p)
lottery_add_thread-OnePlace ts t p k d i one enough =
    let (q, e, kept) =
      both (Kept t p) (lottery_add_thread t p k).0 (add_thread-Kept t p k)
        (add_thread_some t p k enough) in
    (
      (q, e, OnePlace-Kept ts t p q kept d i one),
      OnePlace-Kept ts t p (lottery_kill_thread t p) (kill_thread-Kept t p) d i one,
    )
