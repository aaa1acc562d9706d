-- ===== src/Crdt/DvvSet/Sync.antt =====
-- `Sync`: the siblings that it keeps, and the order of the counters.
use mathlib.Core.Path.{ap₂}
use mathlib.Core.Option.{some-injective}
use commute.Prelude.{
  str_eq, Str, Map, Option, none, some, [], ◌∷◌, true, false, ◌||◌, ◌≡◌, refl, sym, ◌∙◌, ap, subst,
  arith, if◌then◌else◌, str_beq, str_beq_iff, is_some, inl, inr, Bool-cases, lookup, insert,
  lookup-insert, insert-Distinct, Distinct, merge_with, merged, lookup-merge_with,
  merge_with-Distinct, lookup_head,
}
use commute.Crdt.DvvSet.{DvvEntry, DvvSet, sync_both, sync_loop, ids_of, sync, IsEntry, IsValid}
use commute.Crdt.DvvSet.Entry.{synced, sync_entry-synced, synced-IsEntry}

not_later :
    (id j : Str) (u : Unit) (ids : Map Str Unit)
    → Distinct ((id, u) ∷ ids)
    → is_some (lookup j ids) ≡ true
    → str_beq id j ≡ false
not_later id j u ids d h = elim (Bool-cases (str_beq id j)) [
  | inl q ↦ let n : lookup j ids ≡ none = rw (← (str_beq_iff id j).0 q) d.0 in ground (arith, n)
  | inr q ↦ q
]

later_some :
    (id j : Str) (u : Unit) (ids : Map Str Unit)
    → str_beq id j ≡ false
    → is_some (lookup j ids) ≡ true
    → is_some (lookup j ((id, u) ∷ ids)) ≡ true
unfolding lookup
later_some id j u ids q h = rw q h

module _ {T : Type 0} where
  abbrev pub synced_at : Option (DvvEntry T) → Option (DvvEntry T) → Option (DvvEntry T)
  synced_at none b = b
  synced_at (some e) none = some e
  synced_at (some e) (some o) = some (synced e o)

  -- What one round of the loop leaves.
  record Round (ds : DvvSet T) (id : Str) (a b : Option (DvvEntry T)) (step : Option (DvvSet T))
      : Type 0 where
    result : DvvSet T
    succeeds : step ≡ some result
    valid : IsValid result
    at : (j : Str) → lookup j result ≡ (if str_beq id j then synced_at a b else lookup j ds)

  insert-IsValid :
      (id : Str) (e : DvvEntry T) (ds : DvvSet T)
      → IsValid ds
      → IsEntry e
      → IsValid (insert id e ds)
  insert-IsValid id e ds v w = record {
    distinct = insert-Distinct id e ds v.distinct;
    entries = λ j x q. elim (Bool-cases (str_beq id j)) [
      | inl r ↦
          let f : some e ≡ some x = rw (lookup-insert id j e ds, r) at q in
          subst IsEntry (some-injective e x f) w
      | inr r ↦ v.entries j x (rw (lookup-insert id j e ds, r) at q)
    ];
  }

  sync_both-Round :
      (ds : DvvSet T) (id : Str) (a b : Option (DvvEntry T))
      → IsValid ds
      → lookup id ds ≡ a
      → (is_some a || is_some b) ≡ true
      → ((e : DvvEntry T) → a ≡ some e → IsEntry e)
      → ((e : DvvEntry T) → b ≡ some e → IsEntry e)
      → Round ds id a b (sync_both ds id a b)
  unfolding sync_both
  sync_both-Round ds id none none v q s va vb = cc
  sync_both-Round ds id none (some o) v q s va vb = record {
    result = insert id o ds;
    succeeds = refl;
    valid = insert-IsValid id o ds v (vb o refl);
    at = λ j. lookup-insert id j o ds;
  }
  sync_both-Round ds id (some e) none v q s va vb = record {
    result = ds;
    succeeds = refl;
    valid = v;
    at = λ j. elim (Bool-cases (str_beq id j)) [
      | inl r ↦ rw (r, ← (str_beq_iff id j).0 r) q
      | inr r ↦ rw r
    ];
  }
  sync_both-Round ds id (some e) (some o) v q s va vb = record {
    result = insert id (synced e o) ds;
    succeeds = rw (sync_entry-synced e o (va e refl) (vb o refl));
    valid = insert-IsValid id (synced e o) ds v (synced-IsEntry e o (va e refl) (vb o refl));
    at = λ j. lookup-insert id j (synced e o) ds;
  }

  record Done (ids : Map Str Unit) (other ds : DvvSet T) (step : Option (DvvSet T)) : Type 0 where
    result : DvvSet T
    succeeds : step ≡ some result
    valid : IsValid result
    at :
        (j : Str)
        → lookup j result ≡ (
            if is_some (lookup j ids)
            then synced_at (lookup j ds) (lookup j other)
            else lookup j ds)

  at_round :
      (id j : Str) (u : Unit) (ids : Map Str Unit) (ds other : DvvSet T)
      (now final : Option (DvvEntry T))
      → Distinct ((id, u) ∷ ids)
      → now ≡ (if str_beq id j then synced_at (lookup id ds) (lookup id other) else lookup j ds)
      → final ≡ (if is_some (lookup j ids) then synced_at now (lookup j other) else now)
      → final ≡ (
          if is_some (lookup j ((id, u) ∷ ids))
          then synced_at (lookup j ds) (lookup j other)
          else lookup j ds)
  unfolding lookup
  at_round id j u ids ds other now final d h k = elim (Bool-cases (str_beq id j)) [
    | inl q ↦
        let e : id ≡ j = (str_beq_iff id j).0 q in
        let n : lookup j ids ≡ none = rw (← e) d.0 in
        rw q
          (rw (n, h, q) at k ∙ ap₂ synced_at (ap (λ t. lookup t ds) e) (ap (λ t. lookup t other) e))
    | inr q ↦ rw q (rw (h, q) at k)
  ]

  sync_loop-Done :
      (ids : Map Str Unit) (other ds : DvvSet T)
      → Distinct ids
      → IsValid other
      → IsValid ds
      → ((j : Str)
          → is_some (lookup j ids) ≡ true
          → (is_some (lookup j ds) || is_some (lookup j other)) ≡ true)
      → Done ids other ds (sync_loop ids other ds)
  unfolding sync_loop
  sync_loop-Done [] other ds d w v cover = record {
    result = ds;
    succeeds = refl;
    valid = v;
    at = λ j. unfold lookup in refl;
  }
  sync_loop-Done ((id, u) ∷ ids) other ds d w v cover =
      let r =
        sync_both-Round ds id (lookup id ds) (lookup id other) v refl
          (cover id (ap is_some (lookup_head id u ids))) (v.entries id) (w.entries id) in
      let covered : (j : Str)
          → is_some (lookup j ids) ≡ true
          → (is_some (lookup j r.result) || is_some (lookup j other)) ≡ true =
        (λ j h.
          let q = not_later id j u ids d h in
          subst (λ t. (is_some t || is_some (lookup j other)) ≡ true)
            (ap (λ b. if b then synced_at (lookup id ds) (lookup id other) else lookup j ds) (sym q)
              ∙ sym (r.at j))
            (cover j (later_some id j u ids q h))) in
      let rest = sync_loop-Done ids other r.result d.1 w r.valid covered in
      rw (r.succeeds, sync_loop)
        (record {
          result = rest.result;
          succeeds = rest.succeeds;
          valid = rest.valid;
          at = λ j.
              at_round id j u ids ds other (lookup j r.result) (lookup j rest.result) d (r.at j)
                (rest.at j);
        })

  lookup-ids_of : (ds : DvvSet T) (j : Str) → is_some (lookup j (ids_of ds)) ≡ is_some (lookup j ds)
  unfolding ids_of lookup
  lookup-ids_of [] j = refl
  lookup-ids_of ((id, e) ∷ ds) j = ground (arith, lookup-ids_of ds j)

  ids_of-Distinct : (ds : DvvSet T) → Distinct ds → Distinct (ids_of ds)
  unfolding ids_of
  ids_of-Distinct [] d = d
  ids_of-Distinct ((id, e) ∷ ds) (n, d) =
      (ground (arith, lookup-ids_of ds id), ids_of-Distinct ds d)

  abbrev all_ids : DvvSet T → DvvSet T → Map Str Unit
  all_ids ds other = merge_with (λ _ v. v) (ids_of ds) (ids_of other)

  lookup-all_ids :
      (ds other : DvvSet T) (j : Str)
      → Distinct other
      → is_some (lookup j (all_ids ds other)) ≡ (is_some (lookup j ds) || is_some (lookup j other))
  lookup-all_ids ds other j d =
      ap is_some
        (lookup-merge_with (λ _ v. v) (ids_of ds) (ids_of other) j (ids_of-Distinct other d))
      ∙ cases (lookup j (ids_of ds)) (lookup j (ids_of other)) (lookup-ids_of ds j)
          (lookup-ids_of other j)
    where
      cases :
          (a b : Option (Unit {0}))
          → is_some a ≡ is_some (lookup j ds)
          → is_some b ≡ is_some (lookup j other)
          → is_some (merged (λ _ v. v) a b) ≡ (is_some (lookup j ds) || is_some (lookup j other))
      cases a none p q = ground arith
      cases a (some y) p q = ground arith

  pub record Synced (ds other : DvvSet T) : Type 0 where
    pub result : DvvSet T
    pub succeeds : sync ds other ≡ some result
    pub valid : IsValid result
    pub at : (j : Str) → lookup j result ≡ synced_at (lookup j ds) (lookup j other)

  absent : (a b : Option (DvvEntry T)) → (is_some a || is_some b) ≡ false → a ≡ synced_at a b
  absent none none h = refl
  absent none (some o) h = cc
  absent (some e) b h = cc

  -- `Sync` of two valid sets succeeds.
  pub sync-Synced : (ds other : DvvSet T) → IsValid ds → IsValid other → Synced ds other
  unfolding sync
  sync-Synced ds other v w =
      let done =
        sync_loop-Done (all_ids ds other) other ds
          (merge_with-Distinct (λ _ u. u) (ids_of ds) (ids_of other)
            (ids_of-Distinct ds v.distinct))
          w v (λ j h. sym (lookup-all_ids ds other j w.distinct) ∙ h) in
      record {
        result = done.result;
        succeeds = done.succeeds;
        valid = done.valid;
        at = λ j. elim (Bool-cases (is_some (lookup j ds) || is_some (lookup j other))) [
          | inl q ↦
              done.at j
              ∙ ap (λ b. if b then synced_at (lookup j ds) (lookup j other) else lookup j ds)
                  (lookup-all_ids ds other j w.distinct ∙ q)
          | inr q ↦
              done.at j
              ∙ ap (λ b. if b then synced_at (lookup j ds) (lookup j other) else lookup j ds)
                  (lookup-all_ids ds other j w.distinct ∙ q)
              ∙ absent _ _ q
        ];
      }
