-- ===== src/Deploy/Ports.antt =====
-- The port that `suggestPort` gives: the least of the range that no live deployment shows.
use ai_model_scheduler.Base.{
  ◌∙◌, leb_ℤ_iff, ℕ, zero, suc, ◌+◌, ◌≤◌, ℤ, pos, ◌≤ℤ◌, ◌<ℤ◌, pos_part, neg_part, suc_ℤ,
  suc_ℤ_parts, span, eq_of_parts, true, false, ◌≡◌, ◌≢◌, refl, sym, ap, List, [], ◌∷◌, none, some,
  any, eqb_ℤ_iff, leb_ℤ, arith, Bool-cases, Option-cases, inl, inr, All, ok, err, eq_iff, ◌⊎◌, ◌↔◌,
}
use ai_model_scheduler.Nomadapi.Deployment.{Deployment}
use ai_model_scheduler.Deploy.Service.{
  PortRange, no_free_ports, used_ports, is_used, scan, suggest_port,
}

-- No live deployment of the listing shows the port.
abbrev pub IsFree : ℤ → List Deployment → Type 0
IsFree q deps = All (λ d. d.status ≢ "dead" → d.port ≢ q) deps

abbrev pub InRange : PortRange → ℤ → Type 0
InRange range q = (range.min ≤ℤ q) × (q ≤ℤ range.max)

module _ (range : PortRange) (used : List ℤ) where
  scan_step :
      (n : ℕ) (p q : ℤ)
      → scan range (suc n) p used ≡ some q
      → (p ≤ℤ range.max)
        × (((is_used p used ≡ false) × (p ≡ q))
            ⊎ ((is_used p used ≡ true) × (scan range n (suc_ℤ p) used ≡ some q)))
  unfolding scan
  scan_step n p q h = ground arith

  -- Between a port and its successor there is none.
  at_or_above : (p r : ℤ) → p ≤ℤ r → (p ≡ r) ⊎ (suc_ℤ p ≤ℤ r)
  at_or_above p r h = elim (Bool-cases (leb_ℤ r p)) [
    | inl e ↦ inl (eq_of_parts p r (omega (arith, (leb_ℤ_iff r p).0 e)))
    | inr e ↦ inr (ground (arith, suc_ℤ_parts p))
  ]

  used_at : (p r : ℤ) → p ≡ r → is_used p used ≡ true → is_used r used ≡ true
  used_at p r e h = ap (λ x. is_used x used) (sym e) ∙ h

  scan-some :
      (n : ℕ) (p q : ℤ)
      → scan range n p used ≡ some q
      → (p ≤ℤ q)
        × (q ≤ℤ range.max)
        × (is_used q used ≡ false)
        × ((r : ℤ) → p ≤ℤ r → r <ℤ q → is_used r used ≡ true)
  unfolding scan
  scan-some zero p q h = cc
  scan-some (suc n) p q h =
      let (fits, found) = scan_step n p q h in
      elim found [
        | inl (free, e) ↦ (
          rw e (omega arith),
          rw (← e) fits,
          rw (← e) free,
          λ r lo hi. absurd (omega (arith, ap pos_part e, ap neg_part e)),
        )
        | inr (taken, later) ↦
            let (lo, hi, free, below) = scan-some n (suc_ℤ p) q later in
            (
              omega (arith, suc_ℤ_parts p),
              hi,
              free,
              λ r above under. elim (at_or_above p r above) [
                | inl e ↦ used_at p r e taken
                | inr up ↦ below r up under
              ],
            )
      ]

  scan_step_none :
      (n : ℕ) (p : ℤ)
      → scan range (suc n) p used ≡ none
      → p ≤ℤ range.max
      → (is_used p used ≡ true) × (scan range n (suc_ℤ p) used ≡ none)
  unfolding scan
  scan_step_none n p h hi = ground arith

  scan-none :
      (n : ℕ) (p : ℤ)
      → suc (pos_part range.max + neg_part p) ≤ pos_part p + neg_part range.max + n
      → scan range n p used ≡ none
      → (r : ℤ) → p ≤ℤ r
      → r ≤ℤ range.max
      → is_used r used ≡ true
  unfolding scan
  scan-none zero p f h r lo hi = absurd (omega arith)
  scan-none (suc n) p f h r lo hi =
      let (taken, later) = scan_step_none n p h (omega arith) in
      elim (at_or_above p r lo) [
        | inl e ↦ used_at p r e taken
        | inr up ↦ scan-none n (suc_ℤ p) (omega (arith, suc_ℤ_parts p)) later r up hi
      ]

is_used-IsFree :
    (q : ℤ) (deps : List Deployment)
    → q ≢ pos 0
    → (is_used q (used_ports deps) ≡ false) ↔ IsFree q deps
unfolding is_used used_ports any
is_used-IsFree q [] z = (λ _. tt, λ _. refl)
is_used-IsFree q (d ∷ deps) z =
    ground (arith, is_used-IsFree q deps z, eq_iff d.status "dead", eqb_ℤ_iff d.port q)

-- The rounds of the loop reach past the end of the range.
span_covers : (lo hi : ℤ) → suc (pos_part hi + neg_part lo) ≤ pos_part lo + neg_part hi + span lo hi
unfolding span
span_covers lo hi = omega arith

module _ (range : PortRange) (deps : List Deployment) (positive : pos 1 ≤ℤ range.min) where
  not-zero : (r : ℤ) → range.min ≤ℤ r → r ≢ pos 0
  not-zero r lo e = omega (arith, ap pos_part e, ap neg_part e)

  used-not-IsFree : (r : ℤ) → range.min ≤ℤ r → is_used r (used_ports deps) ≡ true → ¬ IsFree r deps
  used-not-IsFree r lo u f = cc ((is_used-IsFree r deps (not-zero r lo)).1 f)

  suggest_port-scan :
      (q : ℤ)
      → suggest_port range deps ≡ ok q
      → scan range (span range.min range.max) range.min (used_ports deps) ≡ some q
  unfolding suggest_port
  suggest_port-scan q h = ground arith

  -- The suggested port lies in the range, no live deployment shows it, and every smaller port of
  -- the range is shown by one.
  pub suggest_port_least :
      (q : ℤ)
      → suggest_port range deps ≡ ok q
      → InRange range q × IsFree q deps × ((r : ℤ) → range.min ≤ℤ r → r <ℤ q → ¬ IsFree r deps)
  suggest_port_least q h =
      let (lo, hi, free, below) =
        scan-some range (used_ports deps) (span range.min range.max) range.min q
          (suggest_port-scan q h) in
      (
        (lo, hi),
        (is_used-IsFree q deps (not-zero q lo)).0 free,
        λ r above under. used-not-IsFree r above (below r above under),
      )

  -- There is no suggestion exactly when every port of the range is shown by a live deployment.
  pub suggest_port_full :
      (suggest_port range deps ≡ err no_free_ports) ↔ ((r : ℤ) → InRange range r → ¬ IsFree r deps)
  unfolding suggest_port
  suggest_port_full = (
    λ h r within. used-not-IsFree r within.0 (
        scan-none range (used_ports deps) (span range.min range.max) range.min
          (span_covers range.min range.max) (ground arith) r within.0 within.1),
    λ none_free.
        elim (Option-cases (scan range (span range.min range.max) range.min (used_ports deps))) [
          | inl e ↦ rw (e, suggest_port)
          | inr (q, e) ↦
              let (within, free, _) = suggest_port_least q (rw (e, suggest_port)) in
              absurd (none_free q within free)
        ],
  )
