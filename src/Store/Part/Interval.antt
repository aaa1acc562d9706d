-- ===== src/Store/Part/Interval.antt =====
-- The delta interval of `Store.Delta` holds every delta of the interval.
use commute.Prelude.{
  str_eq, nat_eq, ℕ, zero, suc, ◌+◌, ◌<◌, ◌≤◌, Str, Map, Option, none, some, [], ◌≡◌, refl, sym,
  ◌∙◌, inl, inr, arith, lookup, or_else, merge_with, merged, lookup-merge_with, merge_with-Distinct,
  Option-cases, Bool-cases, nat_beq_iff, subst, Bool-cases, nat_beq,
}
use commute.Crdt.Replicated.{Replicated}
use commute.Store.Part.{Part, collect, interval_from}
use commute.Store.Part.Log.{Holds, IsLogged, delta_at, at_key-some}
use commute.Store.Part.Receive.{IsMessage, IsMessage-nil}

module _ {S : Type 0} (R : Replicated S) where
  merged-IsValid :
      (a b : Option S)
      → ((s : S) → a ≡ some s → R.IsValid s)
      → ((s : S) → b ≡ some s → R.IsValid s)
      → (s : S) → merged (collect R) a b ≡ some s
      → R.IsValid s
  merged-IsValid a none va vb s e = va s e
  merged-IsValid none (some b) va vb s e = vb s e
  merged-IsValid (some a) (some b) va vb s e =
      let f : R.merge a b ≡ s = ground arith in
      subst R.IsValid f (R.merge-IsValid a b (va a refl) (vb b refl))

  module _ (msg o : Map Str S) (v : IsMessage R msg) (w : IsMessage R o) where
    at-collect :
        (k : Str)
        → lookup k (merge_with (collect R) msg o) ≡ merged (collect R) (lookup k msg) (lookup k o)
    at-collect k = lookup-merge_with (collect R) msg o k w.distinct

    collect-IsMessage : IsMessage R (merge_with (collect R) msg o)
    collect-IsMessage = record {
      distinct = merge_with-Distinct (collect R) msg o v.distinct;
      valid = λ k e q.
          merged-IsValid (lookup k msg) (lookup k o) (v.valid k) (w.valid k) e
            (sym (at-collect k) ∙ q);
    }

    collect-Holds : (k : Str) (x : S) → Holds R msg k x → Holds R (merge_with (collect R) msg o) k x
    collect-Holds k x h = elim (Option-cases (lookup k o)) [
      | inl n ↦ record { value = h.value; found = rw (at-collect k, n) h.found; below = h.below }
      | inr (b, e) ↦ record {
        value = R.merge h.value b;
        found = rw (at-collect k, e, h.found);
        below =
            R.Below-trans x h.value _ h.below
              (R.merge-Below_left h.value b (v.valid k h.value h.found) (w.valid k b e));
      }
    ]

    collect-Holds_new :
        (k : Str) (x : S) → lookup k o ≡ some x → Holds R (merge_with (collect R) msg o) k x
    collect-Holds_new k x e = elim (Option-cases (lookup k msg)) [
      | inl n ↦ record { value = x; found = rw (at-collect k, e, n); below = R.Below-refl x }
      | inr (a, f) ↦ record {
        value = R.merge a x;
        found = rw (at-collect k, e, f);
        below = R.merge-Below_right a x (v.valid k a f) (w.valid k x e);
      }
    ]

  logged-IsMessage :
      (i : ℕ) (p : Part S) → IsLogged R p → IsMessage R (or_else (lookup i p.deltas) [])
  logged-IsMessage i p v = elim (Option-cases (lookup i p.deltas)) [
    | inl n ↦ rw n (IsMessage-nil R)
    | inr (m, e) ↦ rw e (record {
      distinct = v.delta_distinct i m e;
      valid = λ k d q. v.delta_valid i k d (rw e q);
    })
  ]

  -- An interval is a message.
  pub interval-IsMessage :
      (rounds i : ℕ) (p : Part S) (msg : Map Str S)
      → IsLogged R p
      → IsMessage R msg
      → IsMessage R (interval_from R rounds i p.deltas msg)
  unfolding interval_from
  interval-IsMessage zero i p msg v w = w
  interval-IsMessage (suc rounds) i p msg v w =
      interval-IsMessage rounds (i + 1) p _ v (collect-IsMessage msg _ w (logged-IsMessage i p v))

  interval-Holds :
      (rounds i : ℕ) (p : Part S) (msg : Map Str S)
      → IsLogged R p
      → IsMessage R msg
      → (k : Str) (x : S) → Holds R msg k x
      → Holds R (interval_from R rounds i p.deltas msg) k x
  unfolding interval_from
  interval-Holds zero i p msg v w k x h = h
  interval-Holds (suc rounds) i p msg v w k x h =
      let o = logged-IsMessage i p v in
      interval-Holds rounds (i + 1) p _ v (collect-IsMessage msg _ w o) k x
        (collect-Holds msg _ w o k x h)

  -- The interval from `i` on holds each delta that is logged at one of its sequence numbers.
  pub interval-Holds_delta :
      (rounds i j : ℕ) (p : Part S) (msg : Map Str S)
      → IsLogged R p
      → IsMessage R msg
      → i ≤ j
      → j < i + rounds
      → (k : Str) (x : S) → delta_at p.deltas j k ≡ some x
      → Holds R (interval_from R rounds i p.deltas msg) k x
  unfolding interval_from
  interval-Holds_delta zero i j p msg v w lo hi k x e = absurd (omega arith)
  interval-Holds_delta (suc rounds) i j p msg v w lo hi k x e =
      let o = logged-IsMessage i p v in
      elim (Bool-cases (nat_beq i j)) [
        | inl q ↦
            let (m, f, g) = at_key-some k (lookup j p.deltas) x e in
            let f' : lookup i p.deltas ≡ some m = rw ((nat_beq_iff i j).0 q) f in
            interval-Holds rounds (i + 1) p _ v (collect-IsMessage msg _ w o) k x
              (collect-Holds_new msg _ w o k x (rw f' g))
        | inr q ↦
            interval-Holds_delta rounds (i + 1) j p _ v (collect-IsMessage msg _ w o) (ground arith)
              (omega arith) k x e
      ]
