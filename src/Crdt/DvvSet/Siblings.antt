-- ===== src/Crdt/DvvSet/Siblings.antt =====
-- `Sync` and `IsLessOrEqual` in terms of dots and counters.
use commute.Prelude.{
  str_eq, ℕ, ◌≤◌, max, Str, Option, none, some, true, ◌&&◌, ◌≡◌, refl, ◌∙◌, ap, arith, leb, le→leb,
  leb→le, Bool-ext, and-true, left-of_and, right-of_and, inl, inr, Option-cases, lookup, or_else,
  at-range_all, range_all-of_at,
}
use commute.Crdt.DvvSet.{DvvEntry, DvvSet, zero_entry, sync, is_less_or_equal, IsEntry, IsValid}
use commute.Crdt.DvvSet.Entry.{sibling, sibling-synced, survives, placed}
use commute.Crdt.DvvSet.Update.{sibling_in, sibling_at, counter_in, counter_at}
use commute.Crdt.DvvSet.Sync.{synced_at, sync-Synced}

module _ {T : Type 0} where
  -- Two replicas have the same value at every dot that both have.
  abbrev pub AgreeAll : DvvSet T → DvvSet T → Type 0
  AgreeAll ds other =
      (id : Str) (c : ℕ) (x y : T)
      → sibling_at ds id c ≡ some x
      → sibling_at other id c ≡ some y
      → x ≡ y

  alone :
      (e : DvvEntry T) (c : ℕ) (s : Option T)
      → IsEntry e
      → sibling e c ≡ s
      → (s ≡ survives e.counter 0 c s none) × (s ≡ survives 0 e.counter c none s)
  alone e c none v h = (refl, refl)
  alone e c (some x) v h =
      let p = placed e c (some x) h in (ground (arith, v.few), ground (arith, v.few))

  sibling-synced_at :
      (a b : Option (DvvEntry T)) (c : ℕ)
      → ((e : DvvEntry T) → a ≡ some e → IsEntry e)
      → ((e : DvvEntry T) → b ≡ some e → IsEntry e)
      → ((x y : T) → sibling_in a c ≡ some x → sibling_in b c ≡ some y → x ≡ y)
      → sibling_in (synced_at a b) c
        ≡ survives (counter_in a) (counter_in b) c (sibling_in a c) (sibling_in b c)
  sibling-synced_at none none c va vb agree = refl
  sibling-synced_at none (some o) c va vb agree = (alone o c (sibling o c) (vb o refl) refl).1
  sibling-synced_at (some e) none c va vb agree = (alone e c (sibling e c) (va e refl) refl).0
  sibling-synced_at (some e) (some o) c va vb agree = sibling-synced e o c agree

  counter-synced_at :
      (a b : Option (DvvEntry T)) → counter_in (synced_at a b) ≡ max (counter_in a) (counter_in b)
  counter-synced_at none none = omega arith
  counter-synced_at none (some o) = omega arith
  counter-synced_at (some e) none = omega arith
  counter-synced_at (some e) (some o) = ground arith

  -- `Sync` of two valid sets that agree on their common dots succeeds with a valid set, whose counter
  -- for each id is the larger of the two, and which has at each dot the sibling of either side, unless
  -- one side has made it obsolete: does not have it and has a counter that reaches its dot.
  pub sibling-sync :
      (ds other : DvvSet T)
      → IsValid ds
      → IsValid other
      → AgreeAll ds other
      → (r : DvvSet T) × (sync ds other ≡ some r)
        × IsValid r
        × ((id : Str) → counter_at r id ≡ max (counter_at ds id) (counter_at other id))
        × ((id : Str) (c : ℕ)
            → sibling_at r id c
              ≡ survives
                  (counter_at ds id)
                  (counter_at other id)
                  c
                  (sibling_at ds id c)
                  (sibling_at other id c))
  sibling-sync ds other v w agree =
      let s = sync-Synced ds other v w in
      (
        s.result,
        s.succeeds,
        s.valid,
        λ id. ap counter_in (s.at id) ∙ counter-synced_at (lookup id ds) (lookup id other),
        λ id c.
            ap (λ o. sibling_in o c) (s.at id)
            ∙ sibling-synced_at (lookup id ds) (lookup id other) c (v.entries id) (w.entries id)
                (agree id c),
      )

  counter-or_else : (o : Option (DvvEntry T)) → (or_else o zero_entry).counter ≡ counter_in o
  counter-or_else none = refl
  counter-or_else (some e) = refl

  pub below_of_test :
      (ds other : DvvSet T)
      → is_less_or_equal ds other ≡ true
      → (id : Str) → counter_at ds id ≤ counter_at other id
  unfolding is_less_or_equal
  below_of_test ds other h id = elim (Option-cases (lookup id ds)) [
    | inl e ↦ rw e (omega arith)
    | inr (x, e) ↦ rw e (
        omega (
          arith,
          leb→le _ _ (
              at-range_all (λ j y. leb y.counter (or_else (lookup j other) zero_entry).counter) ds
                id x h e),
          counter-or_else (lookup id other),
        ))
  ]

  pub test_of_below :
      (ds other : DvvSet T)
      → IsValid ds
      → ((id : Str) → counter_at ds id ≤ counter_at other id)
      → is_less_or_equal ds other ≡ true
  unfolding is_less_or_equal
  test_of_below ds other v h =
      range_all-of_at (λ j y. leb y.counter (or_else (lookup j other) zero_entry).counter) ds
        v.distinct
        (λ id x e.
          le→leb _ _ (omega (arith, ap counter_in e, h id, counter-or_else (lookup id other))))

  -- `Sync` of two valid sets succeeds, and its result is below a set exactly when both are, by the
  -- code's own test on counters: `Sync` gives the least upper bound of the causal histories.
  pub is_less_or_equal-sync :
      (ds other c : DvvSet T)
      → IsValid ds
      → IsValid other
      → (r : DvvSet T) × (sync ds other ≡ some r)
        × (is_less_or_equal r c ≡ (is_less_or_equal ds c && is_less_or_equal other c))
  is_less_or_equal-sync ds other c v w =
      let s = sync-Synced ds other v w in
      let counters : (id : Str)
          → counter_at s.result id ≡ max (counter_at ds id) (counter_at other id) =
        (λ id. ap counter_in (s.at id) ∙ counter-synced_at (lookup id ds) (lookup id other)) in
      (
        s.result,
        s.succeeds,
        Bool-ext (is_less_or_equal s.result c) (is_less_or_equal ds c && is_less_or_equal other c)
            (λ h.
              and-true (is_less_or_equal ds c) (is_less_or_equal other c)
                (test_of_below ds c v
                  (λ id. omega (arith, counters id, below_of_test s.result c h id)))
                (test_of_below other c w
                  (λ id. omega (arith, counters id, below_of_test s.result c h id))))
            (λ h. test_of_below s.result c s.valid (λ id. omega (
              arith,
              counters id,
              below_of_test ds c (left-of_and _ _ h) id,
              below_of_test other c (right-of_and _ _ h) id,
            ))),
      )
