-- ===== src/Store/Sets/Writes.antt =====
-- AddSet and RemoveSet one after the other: they succeed, and what was added stays in the set.
use commute.Prelude.{
  str_eq, nat_eq, ℕ, ◌+◌, ◌%◌, ◌<◌, Str, Option, none, some, [], ◌∷◌, true, ◌≡◌, inl, inr, refl,
  sym, ◌∙◌, ap, arith, str_beq, str_beq_iff, Bool-cases, Option-cases, lookup, lookup-insert,
  insert, or_else, subst, i64, u64,
}
use commute.Crdt.DvvSet.{Vv}
use commute.Crdt.OrSet
use commute.Crdt.OrSet.{OrSet, contains, contains_in, only}
use commute.Crdt.OrSet.Writes.{IsContext}
use commute.Crdt.OrSet.Ready.{
  IsReady, with_element, contains-with_element, add-Written, remove-Written, contains-add_Written,
  remove_unknown,
}
use commute.Store.Part.{Part}
use commute.Store.Sets.{current, absorb, add_set, remove_in, remove_set}

weaken-IsReady : (n : ℕ) (or : OrSet) → IsReady (n + 1) or → IsReady n or
weaken-IsReady n or h value ds e = ((h value ds e).0, omega (arith, (h value ds e).1))

pub current-stored :
    (node key : Str) (p : Part OrSet) (set : OrSet)
    → lookup key p.live ≡ some set
    → current node key p ≡ set
current-stored node key p set e = ap (λ o. or_else o (OrSet.new node)) e

record Absorbed (node key : Str) (set : OrSet) (o : Option (Part OrSet)) : Type 0 where
  part : Part OrSet
  succeeds : o ≡ some part
  live : lookup key part.live ≡ some set

absorb-Absorbed :
    (node key : Str) (d : OrSet) (p : Part OrSet) (set : OrSet)
    → OrSet.merge (current node key p) d ≡ some set
    → Absorbed node key set (absorb node key d p)
unfolding absorb
absorb-Absorbed node key d p set e = record {
  part = record p {
    live = insert key set p.live;
    deltas = insert p.seq ((key, d) ∷ []) p.deltas;
    seq = (p.seq + 1) % u64;
  };
  succeeds = rw e refl;
  live = lookup-insert key key set p.live ∙ rw ((str_beq_iff key key).1 refl) refl;
}

-- A part with the set at the key, on which `n` more writes succeed.
pub record Added (n : ℕ) (node key value : Str) (p : Part OrSet) (o : Option (Part OrSet))
    : Type 0 where
  pub part : Part OrSet
  pub set : OrSet
  pub succeeds : o ≡ some part
  pub live : lookup key part.live ≡ some set
  pub ready : IsReady n set
  pub has : contains set value ≡ true
  pub keeps : (w : Str) → contains (current node key p) w ≡ true → contains set w ≡ true

pub add_set-Added :
    (n : ℕ) (node key value : Str) (vv : Vv) (p : Part OrSet)
    → n + 1 < i64
    → IsReady (n + 1) (current node key p)
    → IsContext vv
    → Added n node key value p (add_set node key value vv p)
unfolding add_set
add_set-Added n node key value vv p b h k =
    let or = current node key p in
    let w = add-Written n or value vv b h k in
    let set = with_element or value w.siblings in
    let a = absorb-Absorbed node key w.delta p set w.merges in
    let has = contains-add_Written n or value vv w b h k in
    record {
      part = a.part;
      set = set;
      succeeds = rw (w.succeeds) a.succeeds;
      live = a.live;
      ready = w.ready;
      has = has;
      keeps = λ v c. elim (Bool-cases (str_beq value v)) [
        | inl q ↦ subst (λ x. contains set x ≡ true) ((str_beq_iff value v).0 q) has
        | inr q ↦ contains-with_element or value v w.siblings ∙ rw q c
      ];
    }

pub record Removed (n : ℕ) (node key : Str) (o : Option (Part OrSet)) : Type 0 where
  pub part : Part OrSet
  pub succeeds : o ≡ some part
  pub ready : IsReady n (current node key part)

remove_in-Removed :
    (n : ℕ) (node key value : Str) (vv : Vv) (p : Part OrSet) (o : Option OrSet)
    → lookup key p.live ≡ o
    → IsReady (n + 1) (current node key p)
    → IsContext vv
    → Removed n node key (remove_in o node key value vv p)
unfolding remove_in
remove_in-Removed n node key value vv p none e h k = record {
  part = p;
  succeeds = refl;
  ready = weaken-IsReady n (current node key p) h;
}
remove_in-Removed n node key value vv p (some set) e h k =
    elim (Option-cases (lookup value set.state)) [
      | inl f ↦
          let (d, g, z) = remove_unknown set value vv f in
          record {
            part = p;
            succeeds = rw (g, z) refl;
            ready = weaken-IsReady n (current node key p) h;
          }
      | inr (ds, f) ↦
          let here = current-stored node key p set e in
          let h' : IsReady (n + 1) set = subst (IsReady (n + 1)) here h in
          let w = remove-Written n set value vv ds h' f k in
          let a =
            absorb-Absorbed node key w.delta p (with_element set value w.siblings)
              (ap (λ or. OrSet.merge or w.delta) here ∙ w.merges) in
          record {
            part = a.part;
            succeeds = rw (w.succeeds, w.nonzero) a.succeeds;
            ready = subst (IsReady n) (sym (current-stored node key a.part _ a.live)) w.ready;
          }
    ]

pub remove_set-Removed :
    (n : ℕ) (node key value : Str) (vv : Vv) (p : Part OrSet)
    → IsReady (n + 1) (current node key p)
    → IsContext vv
    → Removed n node key (remove_set node key value vv p)
unfolding remove_set
remove_set-Removed n node key value vv p h k =
    remove_in-Removed n node key value vv p (lookup key p.live) refl h k
