-- ===== src/Fs/Iob/Slots.antt =====
-- The table of fs/vfs.c: which place `iob_add` takes.
use etaos.Prelude.{
  none-some, ℕ, zero, suc, ◌+◌, ◌≤◌, ◌<◌, ◌≡◌, ◌≢◌, inl, inr, ℕ_discrete, refl, sym, ap, subst, ◌∙◌,
  Option, none, some, some_inj, arith, Option-cases,
}
use etaos.Fs.Iob.{slot_or, free_slot}

-- The place is in range and free, and each place before it is taken.
pub record FirstFree (iob : ℕ → Option ℕ) (from n i : ℕ) : Type 0 where
  pub above : from ≤ i
  pub below : i < from + n
  pub free : iob i ≡ none
  pub before : (j : ℕ) → from ≤ j → j < i → iob j ≢ none

module _ (iob : ℕ → Option ℕ) where
  pub free_slot-FirstFree : (n from i : ℕ) → free_slot iob from n ≡ some i → FirstFree iob from n i
  unfolding free_slot
  free_slot-FirstFree zero from i e = absurd (none-some e)
  free_slot-FirstFree (suc n) from i e = elim (Option-cases (iob from)) [
    | inl z ↦
        let s =
          some_inj from i (sym (ap (λ o. slot_or o from (free_slot iob (from + 1) n)) z) ∙ e) in
        subst (FirstFree iob from (suc n)) s (record {
          above = omega arith;
          below = omega arith;
          free = z;
          before = λ j p q. absurd (omega (arith, p, q));
        })
    | inr (f, z) ↦
        let r =
          free_slot-FirstFree n (from + 1) i
            (sym (ap (λ o. slot_or o from (free_slot iob (from + 1) n)) z) ∙ e) in
        record {
          above = omega (arith, r.above);
          below = omega (arith, r.below);
          free = r.free;
          before = λ j p q. elim (ℕ_discrete j from) [
            | yes k ↦ subst (λ x. iob x ≢ none) (sym k) (λ w. none-some (sym w ∙ z))
            | no k ↦ r.before j (omega (arith, p, k)) q
          ];
        }
  ]

  -- Without a result each place is taken.
  pub free_slot_full :
      (n from : ℕ)
      → ((j : ℕ) → from ≤ j → j < from + n → iob j ≢ none)
      → free_slot iob from n ≡ none
  unfolding free_slot
  free_slot_full zero from h = refl
  free_slot_full (suc n) from h = elim (Option-cases (iob from)) [
    | inl z ↦ absurd (h from (omega arith) (omega arith) z)
    | inr (f, z) ↦
        ap (λ o. slot_or o from (free_slot iob (from + 1) n)) z
        ∙ free_slot_full n (from + 1) (λ j p q. h j (omega (arith, p)) (omega (arith, q)))
  ]

  pub free_slot-none :
      (n from : ℕ) → free_slot iob from n ≡ none → (j : ℕ) → from ≤ j → j < from + n → iob j ≢ none
  unfolding free_slot
  free_slot-none zero from e j p q = absurd (omega (arith, p, q))
  free_slot-none (suc n) from e j p q = elim (Option-cases (iob from)) [
    | inl z ↦
        absurd (none-some (sym (sym (ap (λ o. slot_or o from (free_slot iob (from + 1) n)) z) ∙ e)))
    | inr (f, z) ↦ elim (ℕ_discrete j from) [
      | yes k ↦ subst (λ x. iob x ≢ none) (sym k) (λ w. none-some (sym w ∙ z))
      | no k ↦
          free_slot-none n (from + 1)
            (sym (ap (λ o. slot_or o from (free_slot iob (from + 1) n)) z) ∙ e) j
            (omega (arith, p, k)) (omega (arith, q))
    ]
  ]
