-- ===== src/Session/Pages/Ends.antt =====
-- The page loop of ext-pi/src/manager/session.ts always gives a result.
use agent_cat.Base.{
  ℕ, zero, suc, ◌+◌, ◌≤◌, ◌≡◌, refl, inl, inr, Option, some, Text, arith, Option-cases,
  Result-cases,
}
use agent_cat.Session.Service.{Reference, Service, Host}
use agent_cat.Session.Scope.{Scope, page_scope}
use agent_cat.Session.Pages.{
  Gathered, nothing_gathered, finished, onward, page_step, may_read, page_loop, page_set,
  page_rounds,
}
use agent_cat.Session.Pages.Steps.{page_step-onward}

-- A loop that did not run out of fuel.
pub Ends : {A : Type 0} → Option A → Type 0
Ends {A = A} result = (end : A) × (result ≡ some end)

module _ {W : Type 0} (host : Host) (service : Service W) where
  page_loop-Ends :
      (fuel : ℕ) (scope : Scope) (identity : Text) (location : Reference) (g : Gathered) (w : W)
      → g.index ≤ 65535
      → 65536 ≤ g.index + fuel
      → Ends (page_loop host service fuel scope identity location g w)
  unfolding Ends page_loop
  page_loop-Ends zero scope identity location g w low enough = ground arith
  page_loop-Ends (suc fuel) scope identity location g w low enough =
      elim (Result-cases (may_read host service scope identity location w)) [
        | inl (failure, e) ↦ rw (e, page_loop) (_, refl)
        | inr (done, e) ↦
            rw (e, page_loop)
              (elim (Result-cases (
                page_step host service (service.get location.uri w).1 g
                  (service.get location.uri w).0)) [
                    | inl (failure, e') ↦ rw (e', page_loop) (_, refl)
                    | inr (finished set, e') ↦ rw (e', page_loop) (_, refl)
                    | inr (onward next g', e') ↦
                        let (bound, same) = page_step-onward host service _ g _ e' in
                        rw (e', page_loop)
                          (page_loop-Ends fuel scope identity (record location { uri = next }) g' _
                            (omega (arith, same, bound)) (omega (arith, same, enough)))
                  ])
      ]

  -- The read of a page set always gives a result: the set or a failure, however many pages the manager
  -- names.
  pub page_set-Ends :
      (identity : Text) (first : Reference) (w : W) → Ends (page_set host service identity first w)
  unfolding Ends page_set
  page_set-Ends identity first w = elim (Option-cases (page_scope host first.uri)) [
    | inl e ↦ rw (e, page_set) (_, refl)
    | inr (scope, e) ↦
        rw (e, page_set)
          (page_loop-Ends page_rounds scope identity first nothing_gathered w (omega arith)
            (omega arith))
  ]
