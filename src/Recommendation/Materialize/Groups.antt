-- ===== src/Recommendation/Materialize/Groups.antt =====
-- The groups of candidates: none is lost, none comes twice.
use newtine_backend.Prelude.{
  some-injective, length-sort, ℕ, suc, ◌+◌, String, none, some, List, [], ◌∷◌, ◌≡◌, refl, sym, ap,
  subst, length, length-append, sort-Memᴰ, count, count-append, count-sort, Memᴰ, Memᴰ-cons,
  Memᴰ-append, string_eq, Bool-cases, Option-cases, ◌⊎◌, inl, inr, arith,
}
use newtine_backend.Recommendation.Types.{Numbers, Candidate, Selected}
use newtine_backend.Recommendation.Runs.{Signature, signature_of}
use newtine_backend.Recommendation.Score.{ranks_before}
use newtine_backend.Recommendation.Pool.{same_signature}
use newtine_backend.Recommendation.Materialize.{
  Group, add_member, members_onto, first_of, keep_rest, pass_over, shift_from, sort_members,
}

-- How often an id stands in a list of candidates, of items, and in the groups.
abbrev pub times : {F : Type 0} → String → List (Candidate F) → ℕ
times a cs = count (λ c. c.issue.id) a cs

abbrev pub item_times : {F : Type 0} → String → List (Selected F) → ℕ
item_times a xs = count (λ x. x.candidate.issue.id) a xs

abbrev pub group_times : {F : Type 0} → String → List (Group F) → ℕ
group_times a [] = 0
group_times a (g ∷ gs) = times a g.members + group_times a gs

-- A candidate of some group.
abbrev pub Grouped : {F : Type 0} → Candidate F → List (Group F) → Type 0
Grouped c [] = ⊥
Grouped c (g ∷ gs) = Memᴰ c g.members ⊎ Grouped c gs

module _ {F : Type 0} where
  abbrev pub group_size : List (Group F) → ℕ
  group_size [] = 0
  group_size (g ∷ gs) = length g.members + group_size gs

  add_member-size :
      (c : Candidate F) (gs : List (Group F)) → group_size (add_member c gs) ≡ suc (group_size gs)
  add_member-size c [] = refl
  add_member-size c (g ∷ gs) =
      elim (Bool-cases (same_signature g.signature (signature_of c.issue))) [
        | inl e ↦ rw e (omega (arith, length-append g.members (c ∷ [])))
        | inr e ↦ rw e (omega (arith, add_member-size c gs))
      ]

  pub members_onto-size :
      (gs : List (Group F)) (cs : List (Candidate F))
      → group_size (members_onto gs cs) ≡ group_size gs + length cs
  members_onto-size gs [] = omega arith
  members_onto-size gs (c ∷ cs) =
      omega (arith, members_onto-size (add_member c gs) cs, add_member-size c gs)

  pub sort_members-size :
      (n : Numbers F) (gs : List (Group F)) → group_size (sort_members n gs) ≡ group_size gs
  sort_members-size n [] = refl
  sort_members-size n (g ∷ gs) =
      omega (arith, length-sort (ranks_before n) g.members, sort_members-size n gs)

  add_member-times :
      (a : String) (c : Candidate F) (gs : List (Group F))
      → group_times a (add_member c gs) ≡ times a (c ∷ []) + group_times a gs
  add_member-times a c [] = omega arith
  add_member-times a c (g ∷ gs) =
      elim (Bool-cases (same_signature g.signature (signature_of c.issue))) [
        | inl e ↦ rw e (omega (arith, count-append (λ d. d.issue.id) a g.members (c ∷ [])))
        | inr e ↦ rw e (omega (arith, add_member-times a c gs))
      ]

  pub members_onto-times :
      (a : String) (gs : List (Group F)) (cs : List (Candidate F))
      → group_times a (members_onto gs cs) ≡ group_times a gs + times a cs
  members_onto-times a gs [] = omega arith
  members_onto-times a gs (c ∷ cs) =
      omega (arith, members_onto-times a (add_member c gs) cs, add_member-times a c gs)

  pub sort_members-times :
      (n : Numbers F) (a : String) (gs : List (Group F))
      → group_times a (sort_members n gs) ≡ group_times a gs
  sort_members-times n a [] = refl
  sort_members-times n a (g ∷ gs) =
      omega (
        arith,
        count-sort (λ c. c.issue.id) (ranks_before n) a g.members,
        sort_members-times n a gs,
      )

  add_member-Grouped :
      (d c : Candidate F) (gs : List (Group F))
      → Grouped d (add_member c gs)
      → (d ≡ c) ⊎ Grouped d gs
  add_member-Grouped d c [] (inl m) = Memᴰ-cons (λ e. inl e) (λ k. elim k [ ]) m
  add_member-Grouped d c [] (inr h) = absurd h
  add_member-Grouped d c (g ∷ gs) h =
      elim (Bool-cases (same_signature g.signature (signature_of c.issue))) [
        | inl e ↦ elim (rw e at h) [
          | inl m ↦ elim (Memᴰ-append g.members m) [
            | inl k ↦ inr (inl k)
            | inr k ↦ Memᴰ-cons (λ q. inl q) (λ l. elim l [ ]) k
          ]
          | inr later ↦ inr (inr later)
        ]
        | inr e ↦ elim (rw e at h) [
          | inl m ↦ inr (inl m)
          | inr later ↦ elim (add_member-Grouped d c gs later) [
            | inl q ↦ inl q
            | inr k ↦ inr (inr k)
          ]
        ]
      ]

  pub members_onto-Grouped :
      (d : Candidate F) (gs : List (Group F)) (cs : List (Candidate F))
      → Grouped d (members_onto gs cs)
      → Grouped d gs ⊎ Memᴰ d cs
  members_onto-Grouped d gs [] h = inl h
  members_onto-Grouped d gs (c ∷ cs) h = elim (members_onto-Grouped d (add_member c gs) cs h) [
    | inl k ↦ elim (add_member-Grouped d c gs k) [ inl e ↦ inr (Memᴰ.head e) | inr old ↦ inl old ]
    | inr m ↦ inr (Memᴰ.tail m)
  ]

  pub sort_members-Grouped :
      (n : Numbers F) (d : Candidate F) (gs : List (Group F))
      → Grouped d (sort_members n gs)
      → Grouped d gs
  sort_members-Grouped n d [] h = h
  sort_members-Grouped n d (g ∷ gs) (inl m) = inl (sort-Memᴰ (ranks_before n) d g.members m)
  sort_members-Grouped n d (g ∷ gs) (inr h) = inr (sort_members-Grouped n d gs h)

  -- What is taken out of the groups.
  pub record Shifted (c : Candidate F) (gs left : List (Group F)) : Type 0 where
    pub from : Grouped c gs
    pub rest : (d : Candidate F) → Grouped d left → Grouped d gs
    pub times_of : (a : String) → group_times a gs ≡ times a (c ∷ []) + group_times a left
    pub size : group_size gs ≡ suc (group_size left)

  keep_rest-Shifted :
      (g : Group F) (gs : List (Group F)) (ms : List (Candidate F)) (c : Candidate F)
      → (left : List (Group F)) → g.members ≡ ms
      → keep_rest g gs (first_of ms) ≡ some (c, left)
      → Shifted c (g ∷ gs) left
  keep_rest-Shifted g gs [] c left e h = absurd (cc)
  keep_rest-Shifted g gs (m ∷ ms) c left e h =
      let first : Candidate F × List (Group F) = (m, record g { members = ms } ∷ gs) in
      let both = some-injective first (c, left) h in
      let out : Shifted m (g ∷ gs) (record g { members = ms } ∷ gs) = record {
        from = inl (subst (λ xs. Memᴰ m xs) (sym e) (Memᴰ.head refl));
        rest = λ d k. elim k [
          | inl i ↦ inl (subst (λ xs. Memᴰ d xs) (sym e) (Memᴰ.tail i))
          | inr i ↦ inr i
        ];
        times_of = λ a. omega (arith, ap (times a) e);
        size = omega (arith, ap length e);
      } in
      subst (λ p. Shifted p.0 (g ∷ gs) p.1) both out

  pass_over-Shifted :
      (g : Group F) (gs : List (Group F)) (c d : Candidate F) (left rest : List (Group F))
      → Shifted d gs rest
      → pass_over g (some (d, rest)) ≡ some (c, left)
      → Shifted c (g ∷ gs) left
  pass_over-Shifted g gs c d left rest s h =
      let kept : Candidate F × List (Group F) = (d, g ∷ rest) in
      let both = some-injective kept (c, left) h in
      let out : Shifted d (g ∷ gs) (g ∷ rest) = record {
        from = inr s.from;
        rest = λ x k. elim k [ inl i ↦ inl i | inr i ↦ inr (s.rest x i) ];
        times_of = λ a. omega (arith, s.times_of a);
        size = omega (arith, s.size);
      } in
      subst (λ p. Shifted p.0 (g ∷ gs) p.1) both out

  pub shift_from-Shifted :
      (k : Signature) (gs : List (Group F)) (c : Candidate F) (left : List (Group F))
      → shift_from k gs ≡ some (c, left)
      → Shifted c gs left
  unfolding shift_from
  shift_from-Shifted k [] c left h = absurd (cc)
  shift_from-Shifted k (g ∷ gs) c left h = elim (Bool-cases (same_signature g.signature k)) [
    | inl e ↦ keep_rest-Shifted g gs g.members c left refl (rw e at h)
    | inr e ↦ elim (Option-cases (shift_from k gs)) [
      | inl q ↦
          let none_left : pass_over g none ≡ some (c, left) = rw q at (rw e at h) in absurd (cc)
      | inr (p, q) ↦
          pass_over-Shifted g gs c p.0 left p.1 (shift_from-Shifted k gs p.0 p.1 q)
            (rw q at (rw e at h))
    ]
  ]
