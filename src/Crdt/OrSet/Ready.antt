-- ===== src/Crdt/OrSet/Ready.antt =====
-- A set on which more writes succeed, and what a write leaves of the other elements.
use commute.Prelude.{
  str_eq, ℕ, ◌+◌, ◌<◌, Str, Option, none, some, [], Bool, true, false, ◌≡◌, inl, inr, refl, sym,
  ◌∙◌, ap, arith, if◌then◌else◌, str_beq, Bool-cases, Option-cases, lookup, lookup-insert, insert,
  i64,
}
use mathlib.Core.Option.{some-injective}
use commute.Crdt.DvvSet.{DvvSet, Vv, IsValid}
use commute.Crdt.DvvSet.Update.{counter_at, sibling-update, update-IsValid}
use commute.Crdt.OrSet.{
  OrSet, is_zero, contains, contains_in, add, remove, remove_known, only, merge, merge_in,
}
use commute.Crdt.OrSet.Writes.{IsContext, empty-IsValid, add-only, remove-only, contains-merge_add}
use commute.Crdt.OrSet.Observed.{merge-only}
use commute.Crdt.DvvSet.Grows.{counter-update_self}
use commute.Crdt.DvvSet.Absorb.{sync-update}

-- The siblings of each element are valid, and `n` more writes of this node keep its counters positive
-- ints.
abbrev pub IsReady : ℕ → OrSet → Type 0
IsReady n or =
    (value : Str) (ds : DvvSet Bool)
    → lookup value or.state ≡ some ds
    → IsValid ds × (counter_at ds or.node_id + n < i64)

-- The set with other siblings for one element.
abbrev pub with_element : OrSet → Str → DvvSet Bool → OrSet
with_element or value ds = record or { state = insert value ds or.state }

IsReady-with_element :
    (n : ℕ) (or : OrSet) (value : Str) (ds : DvvSet Bool)
    → IsReady (n + 1) or
    → IsValid ds
    → counter_at ds or.node_id + n < i64
    → IsReady n (with_element or value ds)
IsReady-with_element n or value ds h v c w x e = elim (Bool-cases (str_beq value w)) [
  | inl q ↦
      let f : x ≡ ds =
        some-injective x ds (sym e ∙ lookup-insert value w ds or.state ∙ rw q refl) in
      rw f (v, c)
  | inr q ↦
      let f : lookup w or.state ≡ some x =
        sym (lookup-insert value w ds or.state ∙ rw q refl) ∙ e in
      ((h w x f).0, omega (arith, (h w x f).1))
]

pub contains-with_element :
    (or : OrSet) (value w : Str) (ds : DvvSet Bool)
    → contains (with_element or value ds) w
      ≡ (if str_beq value w then contains_in (some ds) else contains or w)
unfolding contains
contains-with_element or value w ds = elim (Bool-cases (str_beq value w)) [
  | inl q ↦ rw (lookup-insert value w ds or.state, q) refl
  | inr q ↦ rw (lookup-insert value w ds or.state, q) refl
]

-- What a write of the element leaves: its delta, and the element's siblings once that is merged.
pub record Written (n : ℕ) (or : OrSet) (value : Str) (o : Option OrSet) : Type 0 where
  pub delta : OrSet
  pub siblings : DvvSet Bool
  pub nonzero : is_zero delta ≡ false
  pub succeeds : o ≡ some delta
  pub merges : merge or delta ≡ some (with_element or value siblings)
  pub ready : IsReady n (with_element or value siblings)

add_new-Written :
    (n : ℕ) (or : OrSet) (value : Str) (vv : Vv)
    → n + 1 < i64
    → IsReady (n + 1) or
    → lookup value or.state ≡ none
    → IsContext vv
    → Written n or value (add or value vv)
unfolding lookup merge_in is_zero
add_new-Written n or value vv b h e k =
    let (u, f, _) = sibling-update [] or.node_id vv true empty-IsValid (omega arith) in
    let v = update-IsValid [] or.node_id vv true u empty-IsValid (omega arith) k f in
    record {
      delta = only value u;
      siblings = u;
      nonzero = refl;
      succeeds = add-only or value vv none u e f;
      merges = merge-only or value u u (rw e refl);
      ready = IsReady-with_element n or value u h v (
          omega (arith, counter-update_self [] or.node_id vv true u empty-IsValid (omega arith) f));
    }

add_known-Written :
    (n : ℕ) (or : OrSet) (value : Str) (vv : Vv) (ds : DvvSet Bool)
    → IsReady (n + 1) or
    → lookup value or.state ≡ some ds
    → IsContext vv
    → Written n or value (add or value vv)
unfolding merge_in is_zero
add_known-Written n or value vv ds h e k =
    let (v, b) = h value ds e in
    let a = sync-update ds or.node_id vv true v (omega arith) k in
    record {
      delta = only value a.changed;
      siblings = a.result;
      nonzero = refl;
      succeeds = add-only or value vv (some ds) a.changed e a.updates;
      merges = merge-only or value a.changed a.result (rw e a.syncs);
      ready = IsReady-with_element n or value a.result h a.valid (omega (arith, a.counter));
    }

pub remove-Written :
    (n : ℕ) (or : OrSet) (value : Str) (vv : Vv) (ds : DvvSet Bool)
    → IsReady (n + 1) or
    → lookup value or.state ≡ some ds
    → IsContext vv
    → Written n or value (remove or value vv)
unfolding merge_in is_zero
remove-Written n or value vv ds h e k =
    let (v, b) = h value ds e in
    let a = sync-update ds or.node_id vv false v (omega arith) k in
    record {
      delta = only value a.changed;
      siblings = a.result;
      nonzero = refl;
      succeeds = remove-only or value vv ds a.changed e a.updates;
      merges = merge-only or value a.changed a.result (rw e a.syncs);
      ready = IsReady-with_element n or value a.result h a.valid (omega (arith, a.counter));
    }

pub add-Written :
    (n : ℕ) (or : OrSet) (value : Str) (vv : Vv)
    → n + 1 < i64
    → IsReady (n + 1) or
    → IsContext vv
    → Written n or value (add or value vv)
add-Written n or value vv b h k = elim (Option-cases (lookup value or.state)) [
  | inl e ↦ add_new-Written n or value vv b h e k
  | inr (ds, e) ↦ add_known-Written n or value vv ds h e k
]

-- After an add the element is in the set, and after any write the other elements are as they were.
pub contains-add_Written :
    (n : ℕ) (or : OrSet) (value : Str) (vv : Vv) (w : Written n or value (add or value vv))
    → n + 1 < i64
    → IsReady (n + 1) or
    → IsContext vv
    → contains (with_element or value w.siblings) value ≡ true
contains-add_Written n or value vv w b h k =
    let (d, r, e, f, c) =
      contains-merge_add or value vv (λ ds e. ((h value ds e).0, omega (arith, (h value ds e).1)))
        k in
    let same : w.delta ≡ d = some-injective w.delta d (sym w.succeeds ∙ e) in
    let merged : with_element or value w.siblings ≡ r =
      some-injective _ r (sym w.merges ∙ ap (merge or) same ∙ f) in
    ap (λ x. contains x value) merged ∙ c

pub remove_unknown :
    (or : OrSet) (value : Str) (vv : Vv)
    → lookup value or.state ≡ none
    → (d : OrSet) × (remove or value vv ≡ some d) × (is_zero d ≡ true)
unfolding remove remove_known is_zero
remove_unknown or value vv e = (record { node_id = []; state = [] }, rw e refl, refl)
