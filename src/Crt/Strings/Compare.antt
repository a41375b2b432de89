-- ===== src/Crt/Strings/Compare.antt =====
-- The comparison of strings, of lib/crt/strcmp.c and stricmp.c.
use etaos.Prelude.{
  ℕ, ◌<◌, ◌≡◌, ◌↔◌, refl, sym, ap, ◌∙◌, true, false, inl, inr, List, [], ◌∷◌, All, if◌then◌else◌,
  ◌==◌, arith, Bool-cases, ==_iff,
}
use etaos.Crt.{char_at, behind}
use etaos.Crt.Strings.{difference, strcmp, is_zero, same}

-- A string has no zero among its characters.
abbrev pub IsString : List ℕ → Type 0
IsString = All λ c. 0 < c

differs {ℓ} : {A : Type ℓ} → false ≡ true → A
differs e = ground arith

-- `strcmp` finds two strings equal exactly if they are. A string has no zero among its characters.
pub same_lem : (s t : List ℕ) → IsString s → IsString t → (same s t ≡ true) ↔ (s ≡ t)
unfolding same strcmp
same_lem [] [] p q = (λ e. refl, λ e. refl)
same_lem [] (d ∷ ds) p q = (λ e. ground arith, λ e. ground arith)
same_lem (c ∷ cs) [] p q = (λ e. ground arith, λ e. ground arith)
same_lem (c ∷ cs) (d ∷ ds) p q =
    let ih = same_lem cs ds p.1 q.1 in
    elim (Bool-cases (c == d)) [
      | inl e ↦
          let step : same (c ∷ cs) (d ∷ ds) ≡ same cs ds =
            ap (λ b. is_zero (if b then strcmp cs ds else difference c d)) e in
          let heads : c ≡ d = (==_iff c d).0 e in
          (
            λ h. ap (λ x. x ∷ cs) heads ∙ ap (λ xs. d ∷ xs) (ih.0 (sym step ∙ h)),
            λ h. step ∙ ih.1 (ap behind h),
          )
      | inr e ↦
          let step : same (c ∷ cs) (d ∷ ds) ≡ is_zero (difference c d) =
            ap (λ b. is_zero (if b then strcmp cs ds else difference c d)) e in
          let apart : is_zero (difference c d) ≡ false = ground arith in
          (
            λ h. differs (sym (step ∙ apart) ∙ h),
            λ h. differs (sym e ∙ (==_iff c d).1 (ap char_at h)),
          )
    ]
