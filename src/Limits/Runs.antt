-- ===== src/Limits/Runs.antt =====
-- A run that an endpoint takes is given back at most once, and always when the endpoint fails.
use omni_flow.Prelude.{
  ◌≡◌, refl, ◌⊎◌, inl, inr, true, false, Option, none, some, List, [], ◌∷◌, is_some, Option-cases,
}
use omni_flow.Store.{Moment, Database}
use omni_flow.Store.Metering.{increment_ai_runs, release_ai_run}
use omni_flow.Limits.{
  PlanGate, gate_plan, AiRun, refund, RunStep, refund_step, keep_if_ai, run_step, run_steps,
  end_run, ai_run,
}

-- The run is kept, with the database as it was when the run was taken, or it was given back once.
abbrev pub IsGivenOnce : PlanGate → Database → AiRun → Type 0
IsGivenOnce gate taken run =
    ((run.refunded ≡ false) × (run.db ≡ taken))
    ⊎ ((run.refunded ≡ true) × (at : Moment) × (run.db ≡ release_ai_run at gate.tenant_id taken))

refund-IsGivenOnce :
    (now : Moment) (gate : PlanGate) (taken : Database) (run : AiRun)
    → IsGivenOnce gate taken run
    → IsGivenOnce gate taken (refund now gate run) × ((refund now gate run).refunded ≡ true)
unfolding refund
refund-IsGivenOnce now gate taken run (inl (kept, same)) = rw kept (inr (refl, now, rw same), refl)
refund-IsGivenOnce now gate taken run (inr (given, at, same)) =
    rw given (inr (refl, at, same), refl)

run_steps-IsGivenOnce :
    (gate : PlanGate) (taken : Database) (steps : List RunStep) (run : AiRun)
    → IsGivenOnce gate taken run
    → IsGivenOnce gate taken (run_steps gate steps run)
unfolding run_steps run_step
run_steps-IsGivenOnce gate taken [] run once = once
run_steps-IsGivenOnce gate taken (refund_step now ∷ steps) run once =
    run_steps-IsGivenOnce gate taken steps _ (refund-IsGivenOnce now gate taken run once).0
run_steps-IsGivenOnce gate taken (keep_if_ai now true ∷ steps) run once =
    run_steps-IsGivenOnce gate taken steps run once
run_steps-IsGivenOnce gate taken (keep_if_ai now false ∷ steps) run once =
    run_steps-IsGivenOnce gate taken steps _ (refund-IsGivenOnce now gate taken run once).0

end_run-IsGivenOnce :
    (gate : PlanGate) (taken : Database) (raises : Option Moment) (run : AiRun)
    → IsGivenOnce gate taken run
    → IsGivenOnce gate taken (end_run gate raises run)
      × ((raises ≡ none) ⊎ ((end_run gate raises run).refunded ≡ true))
unfolding end_run
end_run-IsGivenOnce gate taken none run once = (once, inl refl)
end_run-IsGivenOnce gate taken (some at) run once =
    let r = refund-IsGivenOnce at gate taken run once in (r.0, inr r.1)

-- A `with gate.ai_run()` block either does not begin, as no run was left, and then only the call of
-- `increment_ai_runs` touches the database; or it takes one run and ends with that run kept or given
-- back exactly once, whatever the code inside does; and it is given back if the block raises.
pub ai_run_cases :
    (now : Moment) (gate : PlanGate) (steps : List RunStep) (raises : Option Moment) (db : Database)
    → let (count, taken) = increment_ai_runs now gate.tenant_id (gate_plan gate).ai_runs db in
      let (result, db') = ai_run now gate steps raises db in
      ((count ≡ none) × (result ≡ none) × (db' ≡ taken))
      ⊎ ((is_some count ≡ true)
          × (run : AiRun) × (result ≡ some run)
          × (db' ≡ run.db)
          × IsGivenOnce gate taken run
          × ((raises ≡ none) ⊎ (run.refunded ≡ true)))
unfolding ai_run
ai_run_cases now gate steps raises db =
    elim (Option-cases (increment_ai_runs now gate.tenant_id (gate_plan gate).ai_runs db).0) [
      | inl over ↦ inl (over, rw (over, ai_run) refl, rw (over, ai_run) refl)
      | inr (n, left) ↦
          let taken = (increment_ai_runs now gate.tenant_id (gate_plan gate).ai_runs db).1 in
          let run = run_steps gate steps (record { refunded = false; db = taken }) in
          let once = end_run-IsGivenOnce gate taken raises run (
            run_steps-IsGivenOnce gate taken steps (record { refunded = false; db = taken })
              (inl (refl, refl))) in
          inr (
            rw left,
            end_run gate raises run,
            rw (left, ai_run) refl,
            rw (left, ai_run) refl,
            once.0,
            once.1,
          )
    ]
