-- ===== src/Pool/Delay/Time.antt =====
-- The time of a delay in src/runtime/pool/delaypool.rs.
use rustservicelib.Base.{
  ◌++◌, All, some_eq, ◌↔◌, ◌≢◌, ℕ, ◌≤◌, List, [], ◌∷◌, Option, none, some, Bool, true, nat_eq, ltb,
  leb, min, arith, ◌≡◌, refl, ◌⊎◌, inl, inr, Bool-cases, ap,
}
use rustservicelib.Pool.Delay.{schedule_at}

-- The instants that are given.
abbrev pub instants : Option ℕ → List ℕ
instants none = []
instants (some n) = n ∷ []

-- The time of a delay is the earlier of the requested one and the deadline of its context, and the
-- only one of them where the other is missing. It is expedited exactly when the time is not the
-- requested one. There is no time exactly when both are missing.
pub schedule_at_lem :
    (requested deadline : Option ℕ)
    → ((requested ≡ none) × (deadline ≡ none) × (schedule_at requested deadline ≡ none))
      ⊎ ((at : ℕ × Bool) × (schedule_at requested deadline ≡ some at)
          × ((requested ≡ some at.0) ⊎ (deadline ≡ some at.0))
          × All (λ n. at.0 ≤ n) (instants requested ++ instants deadline)
          × ((at.1 ≡ true) ↔ (requested ≢ some at.0)))
unfolding schedule_at
schedule_at_lem (some r) (some d) =
    inr ((min r d, ltb (min r d) r), refl, one_of_both, (omega arith, (omega arith, tt)), early)
  where
    one_of_both : (some r ≡ some (min r d)) ⊎ (some d ≡ some (min r d))
    one_of_both = elim (Bool-cases (leb r d)) [
      | inl first ↦ inl (ap some (ground arith))
      | inr later ↦ inr (ap some (ground arith))
    ]

    early : (ltb (min r d) r ≡ true) ↔ (some r ≢ some (min r d))
    early = (λ h e. absurd (lesser h (some_eq e)), λ ne. unequal ne)
      where
        lesser : ltb (min r d) r ≡ true → r ≡ min r d → ⊥
        lesser h e = ground arith

        unequal : some r ≢ some (min r d) → ltb (min r d) r ≡ true
        unequal ne = elim (Bool-cases (ltb (min r d) r)) [
          | inl less ↦ less
          | inr same ↦ absurd (ne (ap some (ground arith)))
        ]
schedule_at_lem (some r) none = inr (
  (r, ltb r r),
  refl,
  inl refl,
  (omega arith, tt),
  (λ h e. absurd (irreflexive h), λ ne. absurd (ne refl)),
)
  where
    irreflexive : ltb r r ≡ true → ⊥
    irreflexive h = ground arith
schedule_at_lem none (some d) =
    inr ((d, true), refl, inr refl, (omega arith, tt), (λ h e. absurd (clash e), λ ne. refl))
  where
    clash : none ≡ some d → ⊥
    clash e = cc
schedule_at_lem none none = inl (refl, refl, refl)
