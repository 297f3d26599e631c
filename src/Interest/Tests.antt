-- ===== src/Interest/Tests.antt =====
-- A few actions and reports.
use newtine_backend.Prelude.{none, some, List, [], ◌∷◌, ◌≡◌, refl, min, ◌+◌, ◌-◌, arith}
use newtine_backend.Interest.Policy.{Action, action_score}
use newtine_backend.Interest.Laws.{
  after_actions, after_actions-last_action, after_reports, after_reports-eq,
}

abbrev actions : List Action
actions = Action.like ∷ Action.skip ∷ Action.like ∷ Action.skip ∷ []

after_actions-last_action_example :
    after_actions none (action_score none) actions ≡ action_score (some Action.skip)
after_actions-last_action_example = after_actions-last_action none actions

after_reports-eq_example :
    after_reports 5000 0 (4000 ∷ 12000 ∷ 28000 ∷ []) ≡ min 30000 (5000 + (28000 - 0))
after_reports-eq_example =
    after_reports-eq 5000 0 (4000 ∷ 12000 ∷ 28000 ∷ []) 28000 (omega arith)
      (omega arith, (omega arith, (omega arith, refl)))
