-- ===== src/Attempt/Verdict.antt =====
-- What the loop of `Submit` reports.
use network_skill_lab.Prelude.{
  All, Bool-cases, List, Option, String, [], arith, inl, inr, refl, true, ◌↔◌, ◌∷◌, ◌≡◌,
}
use network_skill_lab.Checker.Sweep.{is_pass}
use network_skill_lab.Store.Model.{CheckStatus}
use network_skill_lab.Attempt.View.{CheckpointView}
use network_skill_lab.Attempt.Submit.{tally, status_of, SubmitCheckpoint}

-- `Submit` finds an attempt passed exactly where the status of each checkpoint is a pass; and that
-- is exactly where no hidden checkpoint has failed and each status that it lists is a pass.
pub verdict_exact :
    (swept : String → Option CheckStatus) (cps : List CheckpointView)
    → let t = tally swept cps in
      ((t.passed ≡ true) ↔ All (λ cp. is_pass (status_of swept cp) ≡ true) cps)
      × ((t.passed ≡ true) ↔ (
          (t.hidden_failed ≡ 0)
          × All (λ (c : SubmitCheckpoint). is_pass c.status ≡ true) t.checkpoints))
unfolding tally
verdict_exact swept [] = (((λ h. tt), (λ h. refl)), ((λ h. (refl, tt)), (λ h. refl)))
verdict_exact swept (cp ∷ cps) =
    let (all, shown) = verdict_exact swept cps in
    elim (Bool-cases (is_pass (status_of swept cp))) [
      | inl e ↦ elim (Bool-cases cp.visible) [
        | inl v ↦
            simp (e, v)
              (
                ((λ h. (refl, all.0 h)), (λ a. all.1 a.1)),
                ((λ h. ((shown.0 h).0, (refl, (shown.0 h).1))), (λ a. shown.1 (a.0, a.1.1))),
              )
        | inr v ↦ simp (e, v) (((λ h. (refl, all.0 h)), (λ a. all.1 a.1)), shown)
      ]
      | inr e ↦ elim (Bool-cases cp.visible) [
        | inl v ↦
            simp (e, v)
              (
                ((λ h. absurd (cc)), (λ a. absurd (cc a.0))),
                ((λ h. absurd (cc)), (λ a. absurd (cc a.1.0))),
              )
        | inr v ↦
            simp (e, v)
              (
                ((λ h. absurd (cc)), (λ a. absurd (cc a.0))),
                ((λ h. absurd (cc)), (λ a. absurd (omega (arith, a.0)))),
              )
      ]
    ]
