-- ===== src/Interest/Laws.antt =====
-- Sequences of actions and of reading reports.
use newtine_backend.Prelude.{
  ℕ, ◌+◌, ◌-◌, ◌≤◌, min, Option, some, List, [], ◌∷◌, ◌≡◌, refl, ap, ◌∙◌, arith,
}
use newtine_backend.Interest.Policy.{
  ℤ, pos, ◌+ℤ◌, Action, action_score, action_delta, Milliseconds, detail_dwell_contribution,
}

-- The contribution of a reader to an issue, which each action changes by its delta.
abbrev pub after_actions : Option Action → ℤ → List Action → ℤ
after_actions previous total [] = total
after_actions previous total (a ∷ actions) =
    after_actions (some a) (total +ℤ action_delta previous a) actions

abbrev pub last_action : Option Action → List Action → Option Action
last_action previous [] = previous
last_action previous (a ∷ actions) = last_action (some a) actions

action_score-action_delta :
    (previous : Option Action) (next : Action)
    → action_score previous +ℤ action_delta previous next ≡ action_score (some next)
unfolding action_delta action_score
action_score-action_delta previous next = ground arith

-- Whatever actions a reader takes one after another, the deltas add up to the score of the last
-- one alone.
pub after_actions-last_action :
    (previous : Option Action) (actions : List Action)
    → after_actions previous (action_score previous) actions
      ≡ action_score (last_action previous actions)
after_actions-last_action previous [] = refl
after_actions-last_action previous (a ∷ actions) =
    ap (λ t. after_actions (some a) t actions) (action_score-action_delta previous a)
    ∙ after_actions-last_action (some a) actions

-- A view reports the milliseconds read so far; each report is credited against the one before.
abbrev pub after_reports : ℕ → ℕ → List ℕ → ℕ
after_reports stored current [] = stored
after_reports stored current (accepted ∷ reports) =
    after_reports
      (detail_dwell_contribution (Milliseconds.finite (pos stored))
        (Milliseconds.finite (pos current)) (Milliseconds.finite (pos accepted))).credited
      accepted reports

-- The reports do not go back, and the last of them is given.
abbrev pub Rises : ℕ → List ℕ → ℕ → Type 0
Rises current [] last = current ≡ last
Rises current (accepted ∷ reports) last = (current ≤ accepted) × Rises accepted reports last

Rises-le : (current : ℕ) (reports : List ℕ) (last : ℕ) → Rises current reports last → current ≤ last
Rises-le current [] last h = omega (arith, h)
Rises-le current (accepted ∷ reports) last h =
    omega (arith, h.0, Rises-le accepted reports last h.1)

-- Where the stored credit is at most thirty seconds and the reports of a view do not go back, the
-- credit after all of them is that of one report of the last: it does not depend on how the time is
-- split into reports, and thirty seconds is its cap.
pub after_reports-eq :
    (stored current : ℕ) (reports : List ℕ) (last : ℕ)
    → stored ≤ 30000
    → Rises current reports last
    → after_reports stored current reports ≡ min 30000 (stored + (last - current))
unfolding detail_dwell_contribution
after_reports-eq stored current [] last h r = omega (arith, h, r)
after_reports-eq stored current (accepted ∷ reports) last h r =
    let rest =
      after_reports-eq (min 30000 (stored + (accepted - current))) accepted reports last
        (omega arith) r.1 in
    omega (arith, rest, r.0, Rises-le accepted reports last r.1, h)
