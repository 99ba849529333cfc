-- ===== src/MetricsLog/Spacing.antt =====
-- Reports are spaced, and what is not reported is not forgotten.
use cpp_chat.Base.{
  ltb, if◌then◌else◌, Bool-cases, ℕ, ◌+◌, ◌*◌, ◌≤◌, ◌≡◌, refl, ◌⊎◌, inl, inr, Bool, true, false,
  ◌&&◌, List, [], ◌∷◌, arith,
}
use cpp_chat.Executor.{Metrics}
use cpp_chat.MetricsLog.{has_errors, has_activity, check, Decision, quiet, summary, warning, Policy}

pub record Check (Double : Type 0) : Type 0 where
  pub now : ℕ
  pub current : Metrics Double

abbrev pub is_quiet : Decision → Bool
is_quiet quiet = true
is_quiet d = false

module _ {Double : Type 0} (second : ℕ) where
  -- The reports of a sequence of checks that are not forced, with their times.
  unfoldable pub reports : List (Check Double) → Policy Double → List (ℕ × Decision)
  reports [] p = []
  reports (k ∷ ks) p =
      let r = check second k.current k.now false p in
      let rest = reports ks r.0 in if is_quiet r.1 then rest else (k.now, r.1) ∷ rest

-- A warning comes 60 seconds after the last warning (`warned`), and a summary comes an interval after
-- the last report (`last`).
abbrev pub Spaced : ℕ → ℕ → Bool → ℕ → ℕ → List (ℕ × Decision) → Type 0
Spaced minute interval warned warned_at last [] = Unit
Spaced minute interval warned warned_at last ((now, warning) ∷ rest) =
    ((warned && ltb now (warned_at + minute)) ≡ false) × Spaced minute interval true now now rest
Spaced minute interval warned warned_at last ((now, summary) ∷ rest) =
    (last + interval ≤ now) × Spaced minute interval warned warned_at now rest
Spaced minute interval warned warned_at last ((now, quiet) ∷ rest) = ⊥

module _ {Double : Type 0} (second : ℕ) where
  -- The three outcomes of a check that is not forced.
  check-cases :
      (current : Metrics Double) (now : ℕ) (p : Policy Double)
      → let r = check second current now false p in
        (r ≡ (p, quiet))
        ⊎ ((r ≡ (
          record p { reported = current; last_summary = now; last_warning = now; warned = true },
          warning,
        ))
            × ((p.warned && ltb now (p.last_warning + 60 * second)) ≡ false))
        ⊎ ((r ≡ (record p { reported = current; last_summary = now }, summary))
            × (p.last_summary + p.interval ≤ now))
  unfolding check
  check-cases current now p = elim (Bool-cases (has_activity current p)) [
    | inr idle ↦ inl (rw idle refl)
    | inl busy ↦ elim (Bool-cases (has_errors current p)) [
      | inl failing ↦ elim (Bool-cases (p.warned && ltb now (p.last_warning + 60 * second))) [
        | inl soon ↦ inl (rw (busy, failing, soon) refl)
        | inr due ↦ inr (inl (rw (busy, failing, due) refl, due))
      ]
      | inr calm ↦ elim (Bool-cases (ltb now (p.last_summary + p.interval))) [
        | inl soon ↦ inl (rw (busy, calm, soon) refl)
        | inr due ↦ inr (inr (rw (busy, calm, due) refl, ground arith))
      ]
    ]
  ]

  -- Of checks that are not forced, each warning comes at least 60 seconds after the warning before it,
  -- and each summary at least the interval after the report before it.
  pub reports-Spaced :
      (ks : List (Check Double)) (p : Policy Double)
      → Spaced (60 * second) p.interval p.warned p.last_warning p.last_summary (reports second ks p)
  unfolding reports
  reports-Spaced [] p = tt
  reports-Spaced (k ∷ ks) p = elim (check-cases k.current k.now p) [
    | inl e ↦ rw e (reports-Spaced ks p)
    | inr (inl (e, due)) ↦ rw e (due, reports-Spaced ks _)
    | inr (inr (e, due)) ↦ rw e (due, reports-Spaced ks _)
  ]
