-- ===== src/Crdt/DvvSet/Grows.antt =====
-- `Update` does not lower a counter.
use mathlib.Core.Option.{some-injective}
use commute.Prelude.{
  str_eq, refl, ◌+◌, ◌<◌, ◌≤◌, Str, Option, none, some, true, false, ◌≡◌, sym, ◌∙◌, ap, subst,
  arith, str_beq, str_beq_iff, i64, inl, inr, Bool-cases, lookup, mapped,
}
use commute.Crdt.DvvSet.{DvvEntry, DvvSet, Vv, get, new_dot, bump, update, IsValid}
use commute.Crdt.DvvSet.Entry.{kept}
use commute.Crdt.DvvSet.Update.{counter_in, counter_at, after, lookup-updated, update-updated}

module _ {T : Type 0} where
  at_node :
      (node : Str) (vv : Vv) (v : T) (a : Option (DvvEntry T))
      → counter_in a + 1 < i64
      → counter_in a ≤ (new_dot (mapped (λ j e. kept e (get vv j)) node a) v).counter
  unfolding new_dot
  at_node node vv v none h = omega arith
  at_node node vv v (some e) h = omega arith

  elsewhere :
      (node : Str) (vv : Vv) (id : Str) (b : Option (DvvEntry T))
      → str_beq id node ≡ false
      → counter_in b
        ≤ counter_in (mapped (bump node vv) id (mapped (λ j e. kept e (get vv j)) id b))
  unfolding bump
  elsewhere node vv id none q = omega arith
  elsewhere node vv id (some e) q = rw q (omega arith)

  after-counter :
      (node : Str) (vv : Vv) (v : T) (id : Str) (a b : Option (DvvEntry T))
      → counter_in a + 1 < i64
      → (str_beq node id ≡ true → a ≡ b)
      → counter_in b ≤ counter_in (after node vv v id a b)
  unfolding bump new_dot
  after-counter node vv v id a b h same = elim (Bool-cases (str_beq node id)) [
    | inl q ↦
        let r : node ≡ id = (str_beq_iff node id).0 q in
        let r' : str_beq id node ≡ true = (str_beq_iff id node).1 (sym r) in
        rw (q, r', ← same q) (at_node node vv v a h)
    | inr q ↦
        let q' : str_beq id node ≡ false =
          ground (arith, str_beq_iff id node, str_beq_iff node id) in
        rw q (elsewhere node vv id b q')
  ]

  -- No counter goes down in an update.
  pub counter-update :
      (ds : DvvSet T) (node : Str) (vv : Vv) (v : T) (r : DvvSet T)
      → IsValid ds
      → counter_at ds node + 1 < i64
      → update ds node vv v ≡ some r
      → (id : Str) → counter_at ds id ≤ counter_at r id
  counter-update ds node vv v r w h e id =
      subst (λ t. counter_at ds id ≤ counter_at t id)
        (some-injective _ r (sym (update-updated ds node vv v w) ∙ e))
        (subst (λ o. counter_at ds id ≤ counter_in o) (sym (lookup-updated ds node vv v id))
          (after-counter node vv v id (lookup node ds) (lookup id ds) h
            (λ q. ap (λ k. lookup k ds) ((str_beq_iff node id).0 q))))

  after_self :
      (node : Str) (vv : Vv) (v : T) (a : Option (DvvEntry T))
      → counter_in a + 1 < i64
      → counter_in (after node vv v node a a) ≡ counter_in a + 1
  unfolding bump new_dot
  after_self node vv v none h =
      let q : str_beq node node ≡ true = (str_beq_iff node node).1 refl in rw (q, q) refl
  after_self node vv v (some e) h =
      let q : str_beq node node ≡ true = (str_beq_iff node node).1 refl in rw (q, q) (omega arith)

  -- The counter of the node goes up by one, whatever the context says.
  pub counter-update_self :
      (ds : DvvSet T) (node : Str) (vv : Vv) (v : T) (r : DvvSet T)
      → IsValid ds
      → counter_at ds node + 1 < i64
      → update ds node vv v ≡ some r
      → counter_at r node ≡ counter_at ds node + 1
  counter-update_self ds node vv v r w h e =
      subst (λ t. counter_at t node ≡ counter_at ds node + 1)
        (some-injective _ r (sym (update-updated ds node vv v w) ∙ e))
        (ap counter_in (lookup-updated ds node vv v node) ∙ after_self node vv v (lookup node ds) h)
