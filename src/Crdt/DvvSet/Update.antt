-- ===== src/Crdt/DvvSet/Update.antt =====
-- `Update`: what it keeps, and the dot of the new value.
use mathlib.Core.Option.{some-injective}
use commute.Prelude.{
  str_eq, ℕ, zero, suc, ◌+◌, ◌-◌, ◌%◌, ◌<◌, ◌≤◌, min, max, Str, Option, none, some, List, [], ◌∷◌,
  true, false, ◌&&◌, ◌≡◌, refl, sym, ◌∙◌, ap, subst, arith, if◌then◌else◌, ltb, leb, nat_beq,
  str_beq, str_beq_iff, length, length-take, take, u64, i64, inl, inr, Bool-cases, lookup,
  lookup-insert, insert-Distinct, Distinct, or_else, map_values, mapped, lookup-map_values,
  map_values-Distinct, try_map_values-map_values,
}
use commute.Crdt.DvvSet.{
  DvvEntry, DvvSet, Vv, get, with_values, discard_known, discard, new_dot, bump, event, update,
  IsEntry, IsValid,
}
use commute.Crdt.DvvSet.Entry.{sibling, kept, prefix_lem, placed, Placed, sibling-take}

module _ {T : Type 0} where
  abbrev pub sibling_in : Option (DvvEntry T) → ℕ → Option T
  sibling_in none c = none
  sibling_in (some e) c = sibling e c

  -- The sibling with the dot (id, c).
  abbrev pub sibling_at : DvvSet T → Str → ℕ → Option T
  sibling_at ds id c = sibling_in (lookup id ds) c

  abbrev pub counter_in : Option (DvvEntry T) → ℕ
  counter_in none = 0
  counter_in (some e) = e.counter

  -- The counter of an id, 0 for one that is missing.
  abbrev pub counter_at : DvvSet T → Str → ℕ
  counter_at ds id = counter_in (lookup id ds)

  take_short : (n : ℕ) (l : List T) → length l ≤ n → take (min n (length l)) l ≡ l
  take_short n [] h = ground arith
  take_short zero (x ∷ l) h = absurd (omega arith)
  take_short (suc n) (x ∷ l) h =
      let m : min (suc n) (suc (length l)) ≡ suc (min n (length l)) = omega arith in
      rw m (ap (◌∷◌ x) (take_short n l (omega arith)))

  discard_known-kept :
      (e : DvvEntry T) (o : Option ℕ) → IsEntry e → discard_known e o ≡ some (kept e (or_else o 0))
  unfolding discard_known
  discard_known-kept e none v =
      ap (λ l. some (with_values e l))
        (sym (take_short (e.counter - 0) e.values (omega (arith, v.few))))
  discard_known-kept e (some c) v = elim (Bool-cases (ltb c e.counter)) [
    | inl q ↦ rw (q, prefix_lem (e.counter - c) e.values (omega (arith, v.small)))
    | inr q ↦ let m : min (e.counter - c) (length e.values) ≡ 0 = ground arith in rw (q, m)
  ]

  discard-kept :
      (ds : DvvSet T) (vv : Vv)
      → IsValid ds
      → discard ds vv ≡ some (map_values (λ id e. kept e (get vv id)) ds)
  unfolding discard
  discard-kept ds vv v =
      try_map_values-map_values _ (λ id e. kept e (get vv id)) ds v.distinct
        (λ id e q. discard_known-kept e (lookup id vv) (v.entries id e q))

  -- What `Update` makes of a valid set.
  pub updated : DvvSet T → Str → Vv → T → DvvSet T
  updated ds node vv v = event (map_values (λ id e. kept e (get vv id)) ds) node vv v

  pub update-updated :
      (ds : DvvSet T) (node : Str) (vv : Vv) (v : T)
      → IsValid ds
      → update ds node vv v ≡ some (updated ds node vv v)
  unfolding update updated
  update-updated ds node vv v w = rw (discard-kept ds vv w)

  sibling-kept :
      (e : DvvEntry T) (k c : ℕ) → sibling (kept e k) c ≡ (if ltb k c then sibling e c else none)
  sibling-kept e k c =
      sibling-take e (min (e.counter - k) (length e.values)) c
      ∙ cases (sibling e c) (placed e c (sibling e c) refl)
    where
      cases :
          (a : Option T)
          → Placed e c a
          → (if ltb e.counter (c + min (e.counter - k) (length e.values)) then a else none)
            ≡ (if ltb k c then a else none)
      cases none p = ground arith
      cases (some x) p = ground arith

  -- The entry of `id` after the update.
  abbrev pub after :
      Str → Vv → T → Str → Option (DvvEntry T) → Option (DvvEntry T) → Option (DvvEntry T)
  after node vv v id at_node at_id = mapped (bump node vv) id (
      if str_beq node id
      then some (new_dot (mapped (λ j e. kept e (get vv j)) node at_node) v)
      else mapped (λ j e. kept e (get vv j)) id at_id)

  pub lookup-updated :
      (ds : DvvSet T) (node : Str) (vv : Vv) (v : T) (id : Str)
      → lookup id (updated ds node vv v) ≡ after node vv v id (lookup node ds) (lookup id ds)
  unfolding updated event
  lookup-updated ds node vv v id = rw (
    lookup-map_values (bump node vv) _ id,
    lookup-insert node id _ (map_values (λ j e. kept e (get vv j)) ds),
    lookup-map_values (λ j e. kept e (get vv j)) ds node,
    lookup-map_values (λ j e. kept e (get vv j)) ds id,
  )

  cons-sibling :
      (n : ℕ) (l : List T) (v : T) (c : ℕ)
      → sibling (record { counter = n + 1; values = v ∷ l }) c
        ≡ (if nat_beq c (n + 1) then some v else sibling (record { counter = n; values = l }) c)
  cons-sibling n l v c = elim (Bool-cases (leb c n)) [
    | inl q ↦ let m : n + 1 - c ≡ suc (n - c) = ground arith in rw m (ground arith)
    | inr q ↦ elim (Bool-cases (nat_beq c (n + 1))) [
      | inl r ↦ let m : n + 1 - c ≡ 0 = ground arith in rw m (ground arith)
      | inr r ↦ ground arith
    ]
  ]

  -- What an update leaves at a dot, of an id whose siblings up to `k` the context knows.
  abbrev left_at : ℕ → ℕ → Option T → Option T
  left_at k c s = if ltb k c then s else none

  new-sibling :
      (node : Str) (vv : Vv) (v : T) (o : Option (DvvEntry T)) (c : ℕ)
      → counter_in o + 1 < i64
      → sibling (new_dot (mapped (λ j e. kept e (get vv j)) node o) v) c ≡ (
          if nat_beq c (counter_in o + 1) then some v else left_at (get vv node) c (sibling_in o c))
  unfolding new_dot
  new-sibling node vv v none c h = cons-sibling 0 [] v c ∙ ground arith
  new-sibling node vv v (some e) c h =
      let m : (e.counter + 1) % u64 ≡ e.counter + 1 = omega arith in
      rw m (
        cons-sibling e.counter (kept e (get vv node)).values v c
        ∙ ap (λ s. if nat_beq c (e.counter + 1) then some v else s)
            (sibling-kept e (get vv node) c))

  bump-sibling :
      (e : DvvEntry T) (k c : ℕ)
      → sibling (record (kept e k) { counter = max e.counter k }) c ≡ sibling (kept e k) c
  bump-sibling e k c = elim (Bool-cases (leb k e.counter)) [
    | inl q ↦ let m : max e.counter k ≡ e.counter = ground arith in rw m
    | inr q ↦
        let m : min (e.counter - k) (length e.values) ≡ 0 = ground arith in rw m (ground arith)
  ]

  other-sibling :
      (node : Str) (vv : Vv) (id : Str) (c : ℕ) (b : Option (DvvEntry T))
      → str_beq id node ≡ false
      → sibling_in (mapped (bump node vv) id (mapped (λ j e. kept e (get vv j)) id b)) c
        ≡ left_at (get vv id) c (sibling_in b c)
  unfolding bump
  other-sibling node vv id c none q = ground arith
  other-sibling node vv id c (some e) q =
      rw q (bump-sibling e (get vv id) c ∙ sibling-kept e (get vv id) c)

  after-sibling :
      (node : Str) (vv : Vv) (v : T) (id : Str) (c : ℕ) (a b : Option (DvvEntry T))
      → counter_in a + 1 < i64
      → (str_beq node id ≡ true → a ≡ b)
      → sibling_in (after node vv v id a b) c ≡ (
          if str_beq node id && nat_beq c (counter_in a + 1)
          then some v
          else left_at (get vv id) c (sibling_in b c))
  unfolding bump
  after-sibling node vv v id c a b h same = elim (Bool-cases (str_beq node id)) [
    | inl q ↦
        let r : node ≡ id = (str_beq_iff node id).0 q in
        let r' : str_beq id node ≡ true = (str_beq_iff id node).1 (sym r) in
        rw (q, r', ← same q, ← r) (new-sibling node vv v a c h)
    | inr q ↦
        let q' : str_beq id node ≡ false =
          ground (arith, str_beq_iff id node, str_beq_iff node id) in
        rw q (other-sibling node vv id c b q')
  ]

  -- `Update` succeeds on a valid set whose counter of this node can rise below 2^63. At each dot of the result stands: the new value at the dot that
  -- follows this node's counter; else the old sibling if the context does not cover its dot; else
  -- nothing.
  pub sibling-update :
      (ds : DvvSet T) (node : Str) (vv : Vv) (v : T)
      → IsValid ds
      → counter_at ds node + 1 < i64
      → (r : DvvSet T) × (update ds node vv v ≡ some r)
        × ((id : Str) (c : ℕ)
            → sibling_at r id c ≡ (
                if str_beq node id && nat_beq c (counter_at ds node + 1)
                then some v
                else if ltb (get vv id) c
                then sibling_at ds id c
                else none))
  sibling-update ds node vv v w h = (
    updated ds node vv v,
    update-updated ds node vv v w,
    λ id c.
        ap (λ o. sibling_in o c) (lookup-updated ds node vv v id)
        ∙ after-sibling node vv v id c (lookup node ds) (lookup id ds) h
            (λ q. ap (λ k. lookup k ds) ((str_beq_iff node id).0 q)),
  )

  kept-IsEntry : (e : DvvEntry T) (k : ℕ) → IsEntry e → IsEntry (kept e k)
  kept-IsEntry e k v = record {
    few = omega (arith, length-take (min (e.counter - k) (length e.values)) e.values, v.few);
    small = v.small;
  }

  bump-IsEntry :
      (node : Str) (vv : Vv) (id : Str) (e : DvvEntry T)
      → get vv id < i64
      → IsEntry e
      → IsEntry (bump node vv id e)
  unfolding bump
  bump-IsEntry node vv id e h v = elim (Bool-cases (str_beq id node)) [
    | inl q ↦ rw q v
    | inr q ↦ rw q (record { few = omega (arith, v.few); small = omega (arith, v.small) })
  ]

  new-IsEntry :
      (node : Str) (vv : Vv) (v : T) (o : Option (DvvEntry T))
      → counter_in o + 1 < i64
      → ((e : DvvEntry T) → o ≡ some e → IsEntry e)
      → IsEntry (new_dot (mapped (λ j e. kept e (get vv j)) node o) v)
  unfolding new_dot
  new-IsEntry node vv v none h all = record { few = omega arith; small = omega arith }
  new-IsEntry node vv v (some e) h all =
      let w = kept-IsEntry e (get vv node) (all e refl) in
      record { few = omega (arith, w.few); small = omega arith }

  after-IsEntry :
      (node : Str) (vv : Vv) (v : T) (id : Str) (a b : Option (DvvEntry T)) (e : DvvEntry T)
      → counter_in a + 1 < i64
      → get vv id < i64
      → ((x : DvvEntry T) → a ≡ some x → IsEntry x)
      → ((x : DvvEntry T) → b ≡ some x → IsEntry x)
      → after node vv v id a b ≡ some e
      → IsEntry e
  after-IsEntry node vv v id a b e h k va vb q = elim (Bool-cases (str_beq node id)) [
    | inl r ↦
        let f : some (bump node vv id (new_dot (mapped (λ j x. kept x (get vv j)) node a) v))
            ≡ some e =
          rw r at q in
        subst IsEntry (some-injective _ e f)
          (bump-IsEntry node vv id _ k (new-IsEntry node vv v a h va))
    | inr r ↦ others b vb (rw r at q)
  ]
    where
      others :
          (b : Option (DvvEntry T))
          → ((x : DvvEntry T) → b ≡ some x → IsEntry x)
          → mapped (bump node vv) id (mapped (λ j x. kept x (get vv j)) id b) ≡ some e
          → IsEntry e
      others none vb q = cc
      others (some x) vb q =
          subst IsEntry (some-injective _ e q)
            (bump-IsEntry node vv id _ k (kept-IsEntry x (get vv id) (vb x refl)))

  updated-Distinct :
      (ds : DvvSet T) (node : Str) (vv : Vv) (v : T) → IsValid ds → Distinct (updated ds node vv v)
  unfolding updated event
  updated-Distinct ds node vv v w =
      map_values-Distinct (bump node vv) _
        (insert-Distinct node _ _ (map_values-Distinct (λ j e. kept e (get vv j)) ds w.distinct))

  -- `Update` keeps the invariant while its counters and those of the context are positive ints.
  pub update-IsValid :
      (ds : DvvSet T) (node : Str) (vv : Vv) (v : T) (r : DvvSet T)
      → IsValid ds
      → counter_at ds node + 1 < i64
      → ((id : Str) → get vv id < i64)
      → update ds node vv v ≡ some r
      → IsValid r
  update-IsValid ds node vv v r w h k e =
      subst IsValid (some-injective _ r (sym (update-updated ds node vv v w) ∙ e)) (record {
        distinct = updated-Distinct ds node vv v w;
        entries = λ id x q.
            after-IsEntry node vv v id (lookup node ds) (lookup id ds) x h (k id) (w.entries node)
              (w.entries id) (sym (lookup-updated ds node vv v id) ∙ q);
      })
