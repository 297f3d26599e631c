-- ===== src/Recommendation/Targets/Room.antt =====
-- An augmenting path is never longer than there are candidates that it has not visited.
use text.Mathlib.TextEquality.{eq_iff}
use newtine_backend.Prelude.{
  ℕ, zero, suc, ◌+◌, ◌≤◌, String, true, false, ◌||◌, Option, none, some, List, [], ◌∷◌, ◌++◌, ◌≡◌,
  refl, sym, ap, ◌∙◌, subst, get_elem?, includes, Memᴰ, Memᴰ-cons, ◌==◌, string_eq, if◌then◌else◌,
  if-agree, if-cases, Option-cases, inl, inr, arith,
}
use newtine_backend.Prelude.Map.{Map, get, set}
use newtine_backend.Recommendation.Types.{Numbers, Selection, Candidate}
use newtine_backend.Recommendation.Targets.{
  by_type, Assignment, moved_from, try_candidates, try_assign,
}
use newtine_backend.Recommendation.Targets.Slots.{by_type-Memᴰ}

-- How many candidates have not been visited.
abbrev pub unvisited : {F : Type 0} → List String → List (Candidate F) → ℕ
unvisited visited [] = 0
unvisited visited (c ∷ cs) = (if includes visited c.issue.id then 0 else 1) + unvisited visited cs

includes-append :
    (visited : List String) (a b : String)
    → includes (visited ++ (a ∷ [])) b ≡ (includes visited b || a == b)
includes-append [] a b = ground arith
includes-append (x ∷ xs) a b = ground (arith, includes-append xs a b)

module _ {F : Type 0} where
  unvisited-append-le :
      (visited : List String) (a : String) (cs : List (Candidate F))
      → unvisited (visited ++ (a ∷ [])) cs ≤ unvisited visited cs
  unvisited-append-le visited a [] = omega arith
  unvisited-append-le visited a (c ∷ cs) =
      ground (arith, includes-append visited a c.issue.id, unvisited-append-le visited a cs)

  -- A visit to a candidate leaves fewer.
  unvisited-append :
      (visited : List String) (d : Candidate F) (cs : List (Candidate F))
      → Memᴰ d cs
      → includes visited d.issue.id ≡ false
      → suc (unvisited (visited ++ (d.issue.id ∷ [])) cs) ≤ unvisited visited cs
  unvisited-append visited d [] m new = elim m [ ]
  unvisited-append visited d (c ∷ cs) m new =
      Memᴰ-cons
        (λ e.
          let same = ap (λ x. x.issue.id) e in
          let old : includes visited c.issue.id ≡ false =
            subst (λ a. includes visited a ≡ false) same new in
          ground (
            arith,
            includes-append visited d.issue.id c.issue.id,
            same,
            old,
            eq_iff d.issue.id c.issue.id,
            unvisited-append-le visited d.issue.id cs,
          ))
        (λ k. ground (
          arith,
          includes-append visited d.issue.id c.issue.id,
          unvisited-append visited d cs k new,
        ))
        m

  unvisited-none :
      (visited : List String) (d : Candidate F) (cs : List (Candidate F))
      → unvisited visited cs ≡ 0
      → Memᴰ d cs
      → includes visited d.issue.id ≡ true
  unvisited-none visited d [] h m = elim m [ ]
  unvisited-none visited d (c ∷ cs) h m =
      Memᴰ-cons (λ e. subst (λ x. includes visited x.issue.id ≡ true) (sym e) (ground (arith, h)))
        (λ k. unvisited-none visited d cs (ground (arith, h)) k) m

module _ {F : Type 0} (n : Numbers F) (cs : List (Candidate F)) where
  abbrev Call : Type 0
  Call = ℕ → List String → Map ℕ → Assignment

  -- A call forgets no visit.
  abbrev Grows : Call → Type 0
  Grows f =
      (slot : ℕ) (visited : List String) (m : Map ℕ)
      → unvisited (f slot visited m).visited cs ≤ unvisited visited cs

  moved_from-Grows :
      (f : Call) (held : Option ℕ) (visited : List String) (m : Map ℕ)
      → Grows f
      → unvisited (moved_from held f visited m).visited cs ≤ unvisited visited cs
  moved_from-Grows f none visited m grows = omega arith
  moved_from-Grows f (some slot) visited m grows = grows slot visited m

  try_candidates-Grows :
      (f : Call) (slot : ℕ) (ds : List (Candidate F)) (visited : List String) (m : Map ℕ)
      → Grows f
      → unvisited (try_candidates n f slot ds visited m).visited cs ≤ unvisited visited cs
  unfolding try_candidates
  try_candidates-Grows f slot [] visited m grows = omega arith
  try_candidates-Grows f slot (c ∷ ds) visited m grows =
      let visited' : List String = visited ++ (c.issue.id ∷ []) in
      let moved : Assignment = moved_from (get c.issue.id m) f visited' m in
      let step = moved_from-Grows f (get c.issue.id m) visited' m grows in
      let visit = unvisited-append-le visited c.issue.id cs in
      let IsLess : Assignment → Type 0 = λ r. unvisited r.visited cs ≤ unvisited visited cs in
      if-cases IsLess (includes visited c.issue.id) _ _
        (λ _. try_candidates-Grows f slot ds visited m grows)
        (λ _.
          if-cases IsLess moved.done
            (record {
              done = true;
              visited = moved.visited;
              slot_of = set c.issue.id slot moved.slot_of;
            })
            (try_candidates n f slot ds moved.visited moved.slot_of)
            (λ _. omega (arith, step, visit))
            (λ _. omega (
              arith,
              step,
              visit,
              try_candidates-Grows f slot ds moved.visited moved.slot_of grows,
            )))

  try_assign-Grows : (slots : List Selection) (room : ℕ) → Grows (try_assign n cs slots room)
  unfolding try_assign
  try_assign-Grows slots zero slot visited m = omega arith
  try_assign-Grows slots (suc room) slot visited m = elim (Option-cases (get_elem? slots slot)) [
    | inl e ↦ rw e (omega arith)
    | inr (t, e) ↦ rw e (
        try_candidates-Grows (try_assign n cs slots room) slot (by_type n cs t) visited m
          (try_assign-Grows slots room))
  ]

  -- Two calls agree where both have room for what is not visited.
  abbrev Agree : ℕ → ℕ → Call → Call → Type 0
  Agree room other f g =
      (slot : ℕ) (visited : List String) (m : Map ℕ)
      → unvisited visited cs ≤ room
      → unvisited visited cs ≤ other
      → f slot visited m ≡ g slot visited m

  moved_from-Agree :
      (room other : ℕ) (f g : Call) (held : Option ℕ) (visited : List String) (m : Map ℕ)
      → Agree room other f g
      → unvisited visited cs ≤ room
      → unvisited visited cs ≤ other
      → moved_from held f visited m ≡ moved_from held g visited m
  moved_from-Agree room other f g none visited m agree few fits = refl
  moved_from-Agree room other f g (some slot) visited m agree few fits =
      agree slot visited m few fits

  try_candidates-Agree :
      (room other : ℕ) (f g : Call) (slot : ℕ) (ds : List (Candidate F)) (visited : List String)
      → (m : Map ℕ) → Agree room other f g
      → Grows f
      → ((d : Candidate F) → Memᴰ d ds → Memᴰ d cs)
      → unvisited visited cs ≤ suc room
      → unvisited visited cs ≤ suc other
      → try_candidates n f slot ds visited m ≡ try_candidates n g slot ds visited m
  unfolding try_candidates
  try_candidates-Agree room other f g slot [] visited m agree grows sub few fits = refl
  try_candidates-Agree room other f g slot (c ∷ ds) visited m agree grows sub few fits =
      let later : (d : Candidate F) → Memᴰ d ds → Memᴰ d cs = λ d k. sub d (Memᴰ.tail k) in
      if-agree (includes visited c.issue.id)
        (λ _. try_candidates-Agree room other f g slot ds visited m agree grows later few fits)
        (λ new.
          let visited' : List String = visited ++ (c.issue.id ∷ []) in
          let visit = unvisited-append visited c cs (sub c (Memᴰ.head refl)) new in
          let held = get c.issue.id m in
          let moved : Assignment = moved_from held f visited' m in
          let step = moved_from-Grows f held visited' m grows in
          let same =
            moved_from-Agree room other f g held visited' m agree (omega (arith, visit, few))
              (omega (arith, visit, fits)) in
          let after : Call → Assignment → Assignment = λ h r.
            if r.done
            then record {
              done = true;
              visited = r.visited;
              slot_of = set c.issue.id slot r.slot_of;
            }
            else try_candidates n h slot ds r.visited r.slot_of in
          let loops : after f moved ≡ after g moved =
            if-agree moved.done (λ _. refl)
              (λ _.
                try_candidates-Agree room other f g slot ds moved.visited moved.slot_of agree grows
                  later (omega (arith, step, visit, few)) (omega (arith, step, visit, fits))) in
          loops ∙ ap (after g) same)

  -- Where everything is visited there is nothing to try.
  try_candidates-done :
      (f : Call) (slot : ℕ) (ds : List (Candidate F)) (visited : List String) (m : Map ℕ)
      → ((d : Candidate F) → Memᴰ d ds → includes visited d.issue.id ≡ true)
      → try_candidates n f slot ds visited m
        ≡ record { done = false; visited = visited; slot_of = m }
  unfolding try_candidates
  try_candidates-done f slot [] visited m all_visited = refl
  try_candidates-done f slot (c ∷ ds) visited m all_visited =
      rw (all_visited c (Memᴰ.head refl))
        (try_candidates-done f slot ds visited m (λ d k. all_visited d (Memᴰ.tail k)))

  try_assign-done :
      (slots : List Selection) (room slot : ℕ) (visited : List String) (m : Map ℕ)
      → unvisited visited cs ≡ 0
      → try_assign n cs slots room slot visited m
        ≡ record { done = false; visited = visited; slot_of = m }
  unfolding try_assign
  try_assign-done slots zero slot visited m h = refl
  try_assign-done slots (suc room) slot visited m h = elim (Option-cases (get_elem? slots slot)) [
    | inl e ↦ rw e refl
    | inr (t, e) ↦ rw e (
        try_candidates-done (try_assign n cs slots room) slot (by_type n cs t) visited m
          (λ d k. unvisited-none visited d cs h (by_type-Memᴰ n cs t d k).0))
  ]

  -- However much room there is for the candidates that are not visited, `tryAssign` gives the same:
  -- the room that the model passes is never what ends it.
  pub try_assign-room :
      (slots : List Selection) (room other slot : ℕ) (visited : List String) (m : Map ℕ)
      → unvisited visited cs ≤ room
      → unvisited visited cs ≤ other
      → try_assign n cs slots room slot visited m ≡ try_assign n cs slots other slot visited m
  unfolding try_assign
  try_assign-room slots zero other slot visited m few fits =
      let empty : unvisited visited cs ≡ 0 = omega (arith, few) in
      sym (try_assign-done slots other slot visited m empty)
  try_assign-room slots (suc room) zero slot visited m few fits =
      try_assign-done slots (suc room) slot visited m (omega (arith, fits))
  try_assign-room slots (suc room) (suc other) slot visited m few fits =
      elim (Option-cases (get_elem? slots slot)) [
        | inl e ↦ rw e refl
        | inr (t, e) ↦ rw e (
            try_candidates-Agree room other (try_assign n cs slots room)
              (try_assign n cs slots other) slot (by_type n cs t) visited m
              (λ s v k le le'. try_assign-room slots room other s v k le le')
              (try_assign-Grows slots room) (λ d k. (by_type-Memᴰ n cs t d k).0) few fits)
      ]
