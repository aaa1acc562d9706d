-- ===== src/Crdt/DvvSet/Absorb.antt =====
-- What a set holds once it has synced with a copy of itself that an `Update` changed.
use commute.Prelude.{
  str_eq, ℕ, ◌+◌, ◌<◌, ◌≤◌, Str, Option, none, some, Bool, true, false, ◌&&◌, ◌≡◌, refl, sym, ◌∙◌,
  ap, arith, if◌then◌else◌, ltb, max, nat_beq, nat_beq_iff, str_beq, str_beq_iff, i64, lookup,
  left-of_and, right-of_and,
}
use commute.Crdt.DvvSet.{DvvEntry, DvvSet, Vv, get, update, sync, IsValid}
use commute.Crdt.DvvSet.Entry.{survives, placed}
use commute.Crdt.DvvSet.Update.{
  sibling_in, sibling_at, counter_in, counter_at, sibling-update, update-IsValid,
}
use commute.Crdt.DvvSet.Grows.{counter-update, counter-update_self}
use commute.Crdt.DvvSet.Siblings.{AgreeAll, sibling-sync}

module _ {T : Type 0} where
  pub sibling_bound :
      (o : Option (DvvEntry T)) (c : ℕ) (x : T) → sibling_in o c ≡ some x → c ≤ counter_in o
  sibling_bound none c x h = cc
  sibling_bound (some e) c x h = let p = placed e c (some x) h in p.0

  -- What stands at a dot after the update.
  abbrev pub left : Bool → ℕ → ℕ → T → Option T → Option T
  left is_new k c v a = if is_new then some v else if ltb k c then a else none

  left_agrees :
      (is_new : Bool) (n k c : ℕ) (v : T) (a : Option T) (x y : T)
      → (is_new ≡ true → n < c)
      → (a ≡ some x → c ≤ n)
      → a ≡ some x
      → left is_new k c v a ≡ some y
      → x ≡ y
  left_agrees true n k c v a x y h b e f = absurd (omega (arith, h refl, b e))
  left_agrees false n k c v a x y h b e f = ground arith

  survives-left :
      (is_new : Bool) (n m k c : ℕ) (v : T) (a : Option T)
      → n ≤ m
      → (is_new ≡ true → n < c)
      → ((x : T) → a ≡ some x → c ≤ n)
      → survives n m c a (left is_new k c v a) ≡ left is_new k c v a
  survives-left true n m k c v none q h b = ground (arith, h refl)
  survives-left true n m k c v (some x) q h b = absurd (omega (arith, h refl, b x refl))
  survives-left false n m k c v none q h b = ground arith
  survives-left false n m k c v (some x) q h b = ground (arith, b x refl)

  pub record Absorbed (ds : DvvSet T) (node : Str) (vv : Vv) (v : T) : Type 0 where
    pub changed : DvvSet T
    pub result : DvvSet T
    pub updates : update ds node vv v ≡ some changed
    pub syncs : sync ds changed ≡ some result
    pub valid : IsValid result
    pub counter : counter_at result node ≡ counter_at ds node + 1
    pub at :
        (id : Str) (c : ℕ)
        → sibling_at result id c
          ≡ left
              (str_beq node id && nat_beq c (counter_at ds node + 1))
              (get vv id)
              c
              v
              (sibling_at ds id c)

  -- The set then holds what the changed copy holds.
  pub sync-update :
      (ds : DvvSet T) (node : Str) (vv : Vv) (v : T)
      → IsValid ds
      → counter_at ds node + 1 < i64
      → ((id : Str) → get vv id < i64)
      → Absorbed ds node vv v
  sync-update ds node vv v w h k =
      let (u, e, f) = sibling-update ds node vv v w h in
      let later : (id : Str) (c : ℕ)
          → (str_beq node id && nat_beq c (counter_at ds node + 1)) ≡ true
          → counter_at ds id < c =
        (λ id c q.
          let i : node ≡ id =
            (str_beq_iff node id).0
              (left-of_and (str_beq node id) (nat_beq c (counter_at ds node + 1)) q) in
          let j : c ≡ counter_at ds node + 1 =
            (nat_beq_iff c (counter_at ds node + 1)).0
              (right-of_and (str_beq node id) (nat_beq c (counter_at ds node + 1)) q) in
          omega (arith, j, ap (counter_at ds) i)) in
      let agree : AgreeAll ds u = (λ id c x y p q.
        left_agrees (str_beq node id && nat_beq c (counter_at ds node + 1)) (counter_at ds id)
          (get vv id) c v (sibling_at ds id c) x y (later id c) (sibling_bound (lookup id ds) c x) p
          (sym (f id c) ∙ q)) in
      let (r, s, valid, counters, at) =
        sibling-sync ds u w (update-IsValid ds node vv v u w h k e) agree in
      record {
        changed = u;
        result = r;
        updates = e;
        syncs = s;
        valid = valid;
        counter =
            counters node
            ∙ ap (max (counter_at ds node)) (counter-update_self ds node vv v u w h e)
            ∙ omega arith;
        at = λ id c.
            at id c
            ∙ ap (survives (counter_at ds id) (counter_at u id) c (sibling_at ds id c)) (f id c)
            ∙ survives-left _ (counter_at ds id) (counter_at u id) (get vv id) c v
                (sibling_at ds id c) (counter-update ds node vv v u w h e id) (later id c)
                (λ x. sibling_bound (lookup id ds) c x);
      }
