-- ===== src/Sched/Lottery.antt =====
-- kernel/sched/lottery.c: the lottery class. Its tickets are named by their numbers, and each thread of the
-- class has a list of them. The number of tickets of a thread, which the source computes in floating point
-- and rounds, is computed in integers: no priority comes near to a half.
pub mod Tickets
pub mod Draw
mod Tests
use etaos.Prelude.{
  ℕ, zero, suc, ◌+◌, ◌-◌, ◌/◌, Bool, true, false, not, ◌||◌, Option, none, some, List, [], ◌∷◌,
  ◌++◌, if◌then◌else◌, ◌==◌, ltb, leb,
}
use etaos.Sched.Thread.{Thread, Threads, run_root}
use etaos.Sched.Queue.{Head, chain, Status, einval, rr_insert, queue_remove}
use etaos.Sched.Kernel.{Kernel, members, settle, rm_thread}

-- `struct lottery_pool_head`, the tickets of each thread, and how many allocations still succeed.
pub record Pool : Type 0 where
  pub tickets : List ℕ
  pub num : ℕ
  pub held : ℕ → List ℕ
  pub memory : ℕ

abbrev pub lottery_pool_size : ℕ
lottery_pool_size = 20

abbrev pub lottery_resize_size : ℕ
lottery_resize_size = 5

-- A new ticket in front of the free ones.
abbrev pub made : Pool → Pool
made p = record p { tickets = p.num ∷ p.tickets; num = p.num + 1; memory = p.memory - 1 }

-- `lottery_generate_tickets`, up to the first allocation that fails; its error is not used.
unfoldable pub generate_tickets : ℕ → Pool → Pool
generate_tickets zero p = p
generate_tickets (suc n) p =
    let rest = generate_tickets n (made p) in if p.memory == 0 then p else rest

-- `lottery_init`, with an empty pool: it numbers the tickets as it makes them, and sets `num` only if it
-- has made them all.
abbrev pub first_tickets : ℕ → ℕ → List ℕ → List ℕ
first_tickets zero idx ts = ts
first_tickets (suc n) idx ts = first_tickets n (idx + 1) (idx ∷ ts)

unfoldable pub lottery_init : Pool → Pool
lottery_init p =
    let few = record p { tickets = first_tickets p.memory 0 p.tickets; memory = 0 } in
    let all = record p {
      tickets = first_tickets lottery_pool_size 0 p.tickets;
      num = lottery_pool_size;
      memory = p.memory - lottery_pool_size;
    } in
    if ltb p.memory lottery_pool_size then few else all

-- The first ticket leaves the pool, for thread `t`. `none` is the removal of the list's head from
-- an empty list.
abbrev pub take_first : ℕ → Pool → List ℕ → Option Pool
take_first t p [] = none
take_first t p (x ∷ xs) =
    some (record p { tickets = xs; held = λ u. if u == t then x ∷ p.held u else p.held u })

abbrev pub is_empty : List ℕ → Bool
is_empty [] = true
is_empty (x ∷ xs) = false

-- `lottery_take_ticket`, with the insertion into the thread's list.
unfoldable pub take_ticket : ℕ → Pool → Option Pool
unfolding generate_tickets
take_ticket t p =
    let more = generate_tickets lottery_resize_size p in
    let q = if is_empty p.tickets then more else p in take_first t q q.tickets

unfoldable pub take_tickets : ℕ → ℕ → Option Pool → Option Pool
unfolding take_ticket
take_tickets t n none = none
take_tickets t zero (some p) = some p
take_tickets t (suc n) (some p) = take_tickets t n (take_ticket t p)

-- The number of tickets of a priority: 10 - prio / 25, rounded, below 250, and 1 from there on.
unfoldable pub ticket_count : ℕ → ℕ
ticket_count prio = if ltb prio 250 then (262 - prio) / 25 else 1

-- `lottery_add_thread`: the tickets, and the run queue.
unfoldable pub lottery_add_thread : ℕ → Pool → Kernel → Option Pool × Kernel
unfolding take_tickets ticket_count rr_insert
lottery_add_thread t p k =
    let taken = take_tickets t (ticket_count (k.threads t).prio) (some p) in
    let r = rr_insert run_root t (chain k.run_queue) k.threads in
    (
      if is_empty (p.held t) then taken else some p,
      record k { run_queue = members r.0; threads = r.1; num = k.num + 1 },
    )

-- `lottery_remove_thread`, which is `rr_rm_thread`.
unfoldable pub lottery_remove_thread : ℕ → Kernel → Status × Kernel
unfolding rm_thread
lottery_remove_thread t k = rm_thread t k

-- `lottery_return_ticket`, and `lottery_kill_thread` over the thread's tickets.
abbrev pub return_all : List ℕ → List ℕ → List ℕ
return_all [] pool = pool
return_all (x ∷ xs) pool = return_all xs (x ∷ pool)

unfoldable pub lottery_kill_thread : ℕ → Pool → Pool
lottery_kill_thread t p = record p {
  tickets = return_all (p.held t) p.tickets;
  held = λ u. if u == t then [] else p.held u;
}

-- `lottery_preempt_chk`
unfoldable pub lottery_preempt_chk : Thread → Thread → Bool
unfolding ticket_count
lottery_preempt_chk cur next = leb (ticket_count next.prio) (ticket_count cur.prio)

abbrev pub has_ticket : ℕ → List ℕ → Bool
has_ticket n [] = false
has_ticket n (x ∷ xs) = (x == n) || has_ticket n xs

-- The two loops over the run queue: the first thread with the drawn ticket.
unfoldable pub winner : (ℕ → List ℕ) → ℕ → List ℕ → Option ℕ
winner held n [] = none
winner held n (t ∷ ts) =
    let rest = winner held n ts in if has_ticket n (held t) then some t else rest

-- `lottery_single_thread_available`
abbrev pub single_thread : List ℕ → Bool
single_thread [] = true
single_thread (t ∷ []) = true
single_thread (t ∷ u ∷ ts) = false

abbrev pub first_of : List ℕ → Option ℕ
first_of [] = none
first_of (t ∷ ts) = some t

-- What `lottery_next_runnable` answers: a thread, NULL, or nothing yet after so many draws.
pub data Drawn : Type 0 where
  won : ℕ → Drawn
  nobody drawing : Drawn

abbrev pub or_nobody : Option ℕ → Drawn
or_nobody none = nobody
or_nobody (some t) = won t

-- The draws of `random_m`, one after the other, until one wins; without threads, `rq->num` ends the loop.
unfoldable pub draw : (ℕ → List ℕ) → ℕ → List ℕ → List ℕ → Drawn
unfolding winner
draw held num ts [] = drawing
draw held num ts (n ∷ ns) =
    let rest = draw held num ts ns in
    elim (winner held n ts) [ some t ↦ won t | none ↦ if num == 0 then nobody else rest ]

-- `lottery_next_runnable`
unfoldable pub lottery_next_runnable : List ℕ → Pool → Kernel → Drawn
unfolding draw
lottery_next_runnable draws p k =
    let drawn = draw p.held k.num k.run_queue draws in
    if single_thread k.run_queue then or_nobody (first_of k.run_queue) else drawn
