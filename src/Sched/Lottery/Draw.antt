-- ===== src/Sched/Lottery/Draw.antt =====
-- Which thread the lottery chooses.
use etaos.Prelude.{
  ℕ, ◌≤◌, ◌<◌, ◌≡◌, ◌≢◌, refl, sym, ap, ◌∙◌, subst, inl, inr, Bool, true, false, Option, none, some,
  List, [], ◌∷◌, if◌then◌else◌, ◌==◌, arith, Bool-cases, Option-cases, some_inj, none-some,
}
use etaos.Sched.Kernel.{Kernel}
use etaos.Sched.Core.RunQueue.{In}
use etaos.Sched.Lottery.{
  Pool, ticket_count, is_empty, take_tickets, lottery_add_thread, has_ticket, winner, single_thread,
  first_of, Drawn, won, nobody, drawing, or_nobody, draw, lottery_next_runnable,
}

winner_holds :
    (held : ℕ → List ℕ) (n : ℕ) (ts : List ℕ) (t : ℕ)
    → winner held n ts ≡ some t
    → In t ts × (has_ticket n (held t) ≡ true)
unfolding winner
winner_holds held n [] t e = elim (none-some e) [ ]
winner_holds held n (u ∷ us) t e = elim (Bool-cases (has_ticket n (held u))) [
  | inl h ↦
      let same = some_inj u t (sym (ap (λ b. if b then some u else winner held n us) h) ∙ e) in
      (inl same, subst (λ v. has_ticket n (held v) ≡ true) same h)
  | inr h ↦
      let later =
        winner_holds held n us t (sym (ap (λ b. if b then some u else winner held n us) h) ∙ e) in
      (inr later.0, later.1)
]

won_inj : (t u : ℕ) → won t ≡ won u → t ≡ u
won_inj t u e = cc

abbrev is_won : Drawn → Bool
is_won (won t) = true
is_won nobody = false
is_won drawing = false

not_won : (d : Drawn) (t : ℕ) → is_won d ≡ false → d ≢ won t
not_won d t e f = true-false (sym (ap is_won f) ∙ e)
  where
    true-false : true ≡ false → ⊥
    true-false e = ground (arith, e)

-- One draw: the winner, if it has one.
draw_step :
    (held : ℕ → List ℕ) (num : ℕ) (ts : List ℕ) (n : ℕ) (ns : List ℕ)
    → ((t : ℕ) → winner held n ts ≡ some t → draw held num ts (n ∷ ns) ≡ won t)
      × (winner held n ts ≡ none
          → draw held num ts (n ∷ ns) ≡ (if num == 0 then nobody else draw held num ts ns))
unfolding draw
draw_step held num ts n ns =
    let rest = draw held num ts ns in
    let go : Option ℕ → Drawn =
      λ o. elim o [ some t ↦ won t | none ↦ if num == 0 then nobody else rest ] in
    (λ t e. ap go e, λ e. ap go e)

draw_holds :
    (held : ℕ → List ℕ) (num : ℕ) (ts ns : List ℕ) (t : ℕ)
    → draw held num ts ns ≡ won t
    → In t ts × ((n : ℕ) × (has_ticket n (held t) ≡ true) × In n ns)
unfolding draw
draw_holds held num ts [] t e = elim (not_won drawing t refl e) [ ]
draw_holds held num ts (n ∷ ns) t e =
    let step = draw_step held num ts n ns in
    elim (Option-cases (winner held n ts)) [
      | inl none_wins ↦ elim (Bool-cases (num == 0)) [
        | inl z ↦
            let over = step.1 none_wins ∙ ap (λ b. if b then nobody else draw held num ts ns) z in
            elim (not_won nobody t refl (sym over ∙ e)) [ ]
        | inr nz ↦
            let more = step.1 none_wins ∙ ap (λ b. if b then nobody else draw held num ts ns) nz in
            let (i, (m, h, j)) = draw_holds held num ts ns t (sym more ∙ e) in (i, (m, h, inr j))
      ]
      | inr (u, wins) ↦
          let same = won_inj u t (sym (step.0 u wins) ∙ e) in
          let h = winner_holds held n ts u wins in
          (
            subst (λ v. In v ts) same h.0,
            (n, subst (λ v. has_ticket n (held v) ≡ true) same h.1, inl refl),
          )
    ]

several :
    (draws : List ℕ) (p : Pool) (k : Kernel)
    → single_thread k.run_queue ≡ false
    → lottery_next_runnable draws p k ≡ draw p.held k.num k.run_queue draws
unfolding lottery_next_runnable
several draws p k e =
    ap (λ b. if b then or_nobody (first_of k.run_queue) else draw p.held k.num k.run_queue draws) e

-- With two threads on the run queue or more, the thread that the lottery chooses is one of them, and
-- holds a ticket that was drawn.
pub lottery_next_runnable_lem :
    (draws : List ℕ) (p : Pool) (k : Kernel) (t : ℕ)
    → single_thread k.run_queue ≡ false
    → lottery_next_runnable draws p k ≡ won t
    → In t k.run_queue × ((n : ℕ) × (has_ticket n (p.held t) ≡ true) × In n draws)
lottery_next_runnable_lem draws p k t e w =
    draw_holds p.held k.num k.run_queue draws t (sym (several draws p k e) ∙ w)

no_tickets : (prio : ℕ) → 238 ≤ prio → prio < 250 → ticket_count prio ≡ 0
unfolding ticket_count
no_tickets prio lo hi = ground (arith, lo, hi)

-- A thread of a priority from 238 to 249 gets no tickets when it is added, if it has none, and
-- while two threads or more are on the run queue, no draws choose it.
pub lottery_next_runnable-lottery_add_thread :
    (t : ℕ) (p : Pool) (k : Kernel) (draws : List ℕ)
    → 238 ≤ (k.threads t).prio
    → (k.threads t).prio < 250
    → p.held t ≡ []
    → single_thread (lottery_add_thread t p k).1.run_queue ≡ false
    → ((lottery_add_thread t p k).0 ≡ some p)
      × (lottery_next_runnable draws p (lottery_add_thread t p k).1 ≢ won t)
unfolding lottery_add_thread take_tickets
lottery_next_runnable-lottery_add_thread t p k draws lo hi none_held e =
    let zero_tickets = no_tickets (k.threads t).prio lo hi in
    (
      ap (λ b. if b then take_tickets t (ticket_count (k.threads t).prio) (some p) else some p)
            (ap is_empty none_held)
          ∙ ap (λ n. take_tickets t n (some p)) zero_tickets,
      λ w.
          let (i, (n, h, j)) =
            lottery_next_runnable_lem draws p (lottery_add_thread t p k).1 t e w in
          true_false (sym h ∙ ap (has_ticket n) none_held),
    )
  where
    true_false : true ≡ false → ⊥
    true_false e = ground (arith, e)
