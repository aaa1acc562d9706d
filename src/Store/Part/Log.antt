-- ===== src/Store/Part/Log.antt =====
-- The invariant of a part's delta log: at each key the state is the least upper bound of the deltas
-- that are logged for the key.
use commute.Prelude.{
  str_eq, nat_eq, ℕ, ◌+◌, ◌<◌, Str, Map, Option, none, some, [], ◌∷◌, true, ◌≡◌, refl, subst, ◌⊎◌,
  inl, inr, arith, lookup, lookup-insert, insert-Distinct, Distinct, if◌then◌else◌, u64,
  Option-cases, Bool-cases, str_beq_iff, nat_beq_iff, ◌==◌,
}
use commute.Crdt.Replicated.{Replicated}
use commute.Store.Part.{Part, empty, ack, current, absorb}

abbrev pub at_key : {S : Type 0} → Str → Option (Map Str S) → Option S
at_key k none = none
at_key k (some m) = lookup k m

-- The delta of a key at a sequence number.
abbrev pub delta_at : {S : Type 0} → Map ℕ (Map Str S) → ℕ → Str → Option S
delta_at deltas i k = at_key k (lookup i deltas)

pub at_key-some :
    {S : Type 0} (k : Str) (o : Option (Map Str S)) (d : S)
    → at_key k o ≡ some d
    → (m : Map Str S) × (o ≡ some m) × (lookup k m ≡ some d)
at_key-some k none d e = cc
at_key-some k (some m) d e = (m, refl, e)

single : {S : Type 0} (key : Str) (d : S) → Distinct ((key, d) ∷ [])
unfolding lookup
single key d = (refl, tt)

module _ {S : Type 0} (R : Replicated S) where
  -- The value at the key has `d` in its history.
  pub record Holds (live : Map Str S) (k : Str) (d : S) : Type 0 where
    pub value : S
    pub found : lookup k live ≡ some value
    pub below : R.Below d value

  pub record Logged (p : Part S) (k : Str) : Type 0 where
    pub at : ℕ
    pub value : S
    pub found : delta_at p.deltas at k ≡ some value

  pub record IsLogged (p : Part S) : Type 0 where
    pub live_distinct : Distinct p.live
    pub live_valid : (k : Str) (s : S) → lookup k p.live ≡ some s → R.IsValid s
    pub delta_distinct : (i : ℕ) (m : Map Str S) → lookup i p.deltas ≡ some m → Distinct m
    pub delta_valid : (i : ℕ) (k : Str) (d : S) → delta_at p.deltas i k ≡ some d → R.IsValid d
    pub before_seq : (i : ℕ) (m : Map Str S) → lookup i p.deltas ≡ some m → i < p.seq
    pub logged : (k : Str) (s : S) → lookup k p.live ≡ some s → Logged p k
    pub upper : (i : ℕ) (k : Str) (d : S) → delta_at p.deltas i k ≡ some d → Holds p.live k d
    pub least :
        (k : Str) (s c : S)
        → lookup k p.live ≡ some s
        → R.IsValid c
        → ((i : ℕ) (d : S) → delta_at p.deltas i k ≡ some d → R.Below d c)
        → R.Below s c

  pub current-IsValid :
      (node key : Str) (p : Part S) → IsLogged p → R.IsValid (current R node key p)
  current-IsValid node key p v = elim (Option-cases (lookup key p.live)) [
    | inl e ↦ rw e (R.new-IsValid node)
    | inr (s, e) ↦ rw e (v.live_valid key s e)
  ]

  module _ (node key : Str) (d : S) (p : Part S) (v : IsLogged p) (valid : R.IsValid d) where
    live-absorb :
        (k : Str)
        → lookup k (absorb R node key d p).live
          ≡ (if key == k then some (R.merge (current R node key p) d) else lookup k p.live)
    unfolding absorb
    live-absorb k = lookup-insert key k (R.merge (current R node key p) d) p.live

    delta_at-absorb :
        (i : ℕ) (k : Str)
        → delta_at (absorb R node key d p).deltas i k
          ≡ (if p.seq == i then (if key == k then some d else none) else delta_at p.deltas i k)
    unfolding absorb lookup
    delta_at-absorb i k = elim (Bool-cases (p.seq == i)) [
      | inl q ↦ rw (lookup-insert p.seq i ((key, d) ∷ []) p.deltas, q)
      | inr q ↦ rw (lookup-insert p.seq i ((key, d) ∷ []) p.deltas, q)
    ]

    current-Below :
        (k : Str) (x : S)
        → (key == k) ≡ true
        → lookup k p.live ≡ some x
        → R.Below x (R.merge (current R node key p) d)
    current-Below k x q e =
        let e' : lookup key p.live ≡ some x = rw ((str_beq_iff key k).0 q) e in
        rw e' (R.merge-Below_left x d (v.live_valid k x e) valid)

    -- What the part held it still holds after an absorption.
    pub absorb-Holds : (k : Str) (x : S) → Holds p.live k x → Holds (absorb R node key d p).live k x
    absorb-Holds k x h = elim (Bool-cases (key == k)) [
      | inl q ↦ record {
        value = R.merge (current R node key p) d;
        found = rw (live-absorb k, q);
        below = R.Below-trans x h.value _ h.below (current-Below k h.value q h.found);
      }
      | inr q ↦ record { value = h.value; found = rw (live-absorb k, q) h.found; below = h.below }
    ]

    -- The absorbed value is in the history of its key.
    pub absorb-Holds_self : (k : Str) → (key == k) ≡ true → Holds (absorb R node key d p).live k d
    absorb-Holds_self k q = record {
      value = R.merge (current R node key p) d;
      found = rw (live-absorb k, q);
      below = R.merge-Below_right _ d (current-IsValid node key p v) valid;
    }

    seq-fresh : (m : Map Str S) → lookup p.seq p.deltas ≡ some m → ⊥
    seq-fresh m e = omega (arith, v.before_seq p.seq m e)

    -- The new log has the absorbed delta, and the old ones.
    pub new_delta :
        (k : Str) → (key == k) ≡ true → delta_at (absorb R node key d p).deltas p.seq k ≡ some d
    new_delta k q = rw (delta_at-absorb p.seq k, (nat_beq_iff p.seq p.seq).1 refl, q)

    pub old_delta :
        (i : ℕ) (k : Str) (x : S)
        → delta_at p.deltas i k ≡ some x
        → delta_at (absorb R node key d p).deltas i k ≡ some x
    old_delta i k x e = elim (Bool-cases (p.seq == i)) [
      | inl q ↦
          let (m, f, g) = at_key-some k (lookup i p.deltas) x e in
          absurd (seq-fresh m (rw ((nat_beq_iff p.seq i).0 q) f))
      | inr q ↦ rw (delta_at-absorb i k, q) e
    ]

    pub delta-cases :
        (i : ℕ) (k : Str) (x : S)
        → delta_at (absorb R node key d p).deltas i k ≡ some x
        → (((key == k) ≡ true) × (p.seq ≡ i) × (d ≡ x)) ⊎ (delta_at p.deltas i k ≡ some x)
    delta-cases i k x e = elim (Bool-cases (p.seq == i)) [
      | inl q ↦ inl (
        ground (arith, delta_at-absorb i k),
        (nat_beq_iff p.seq i).0 q,
        ground (arith, delta_at-absorb i k),
      )
      | inr q ↦ inr (ground (arith, delta_at-absorb i k))
    ]

    live-cases :
        (k : Str) (s : S)
        → lookup k (absorb R node key d p).live ≡ some s
        → (((key == k) ≡ true) × (R.merge (current R node key p) d ≡ s))
          ⊎ (lookup k p.live ≡ some s)
    live-cases k s e = elim (Bool-cases (key == k)) [
      | inl q ↦ inl (q, ground (arith, live-absorb k))
      | inr q ↦ inr (ground (arith, live-absorb k))
    ]

    absorb-before_seq :
        p.seq + 1 < u64
        → (i : ℕ) (m : Map Str S) → lookup i (absorb R node key d p).deltas ≡ some m
        → i < (absorb R node key d p).seq
    unfolding absorb
    absorb-before_seq h i m e = elim (Bool-cases (p.seq == i)) [
      | inl q ↦ omega (arith, (nat_beq_iff p.seq i).0 q)
      | inr q ↦
          omega (
            arith,
            v.before_seq i m (ground (arith, lookup-insert p.seq i ((key, d) ∷ []) p.deltas)),
          )
    ]

    absorb-delta-Distinct :
        (i : ℕ) (m : Map Str S) → lookup i (absorb R node key d p).deltas ≡ some m → Distinct m
    unfolding absorb
    absorb-delta-Distinct i m e = elim (Bool-cases (p.seq == i)) [
      | inl q ↦
          let f : (key, d) ∷ [] ≡ m =
            ground (arith, lookup-insert p.seq i ((key, d) ∷ []) p.deltas) in
          subst Distinct f (single key d)
      | inr q ↦
          v.delta_distinct i m (ground (arith, lookup-insert p.seq i ((key, d) ∷ []) p.deltas))
    ]

    current-least :
        (k : Str) (c : S)
        → (key == k) ≡ true
        → R.IsValid c
        → ((i : ℕ) (x : S) → delta_at p.deltas i k ≡ some x → R.Below x c)
        → R.Below (current R node key p) c
    current-least k c q vc all = elim (Option-cases (lookup key p.live)) [
      | inl e ↦ rw e (R.new-Below node c vc)
      | inr (s, e) ↦ rw e (v.least k s c (rw (← (str_beq_iff key k).0 q) e) vc all)
    ]

    -- Absorbing a valid value keeps the invariant, until the sequence numbers are used up.
    pub absorb-IsLogged : p.seq + 1 < u64 → IsLogged (absorb R node key d p)
    absorb-IsLogged h = record {
      live_distinct = unfold absorb in insert-Distinct key _ p.live v.live_distinct;
      live_valid = λ k s e. elim (live-cases k s e) [
        | inl (q, f) ↦ subst R.IsValid f (R.merge-IsValid _ d (current-IsValid node key p v) valid)
        | inr f ↦ v.live_valid k s f
      ];
      delta_distinct = absorb-delta-Distinct;
      delta_valid = λ i k x e. elim (delta-cases i k x e) [
        | inl (_, _, f) ↦ subst R.IsValid f valid
        | inr f ↦ v.delta_valid i k x f
      ];
      before_seq = absorb-before_seq h;
      logged = λ k s e. elim (live-cases k s e) [
        | inl (q, _) ↦ record { at = p.seq; value = d; found = new_delta k q }
        | inr f ↦
            let l = v.logged k s f in
            record { at = l.at; value = l.value; found = old_delta l.at k l.value l.found }
      ];
      upper = λ i k x e. elim (delta-cases i k x e) [
        | inl (q, _, f) ↦ subst (Holds (absorb R node key d p).live k) f (absorb-Holds_self k q)
        | inr f ↦ absorb-Holds k x (v.upper i k x f)
      ];
      least = λ k s c e vc all. elim (live-cases k s e) [
        | inl (q, f) ↦
            subst (λ t. R.Below t c) f
              (R.merge-Below_least _ d c (current-IsValid node key p v) valid
                (current-least k c q vc (λ i x g. all i x (old_delta i k x g)))
                (all p.seq d (new_delta k q)))
        | inr f ↦ v.least k s c f vc (λ i x g. all i x (old_delta i k x g))
      ];
    }

  -- An empty part is logged.
  pub empty-IsLogged : IsLogged empty
  unfolding empty lookup
  empty-IsLogged = record {
    live_distinct = tt;
    live_valid = λ k s e. cc;
    delta_distinct = λ i m e. cc;
    delta_valid = λ i k d e. cc;
    before_seq = λ i m e. cc;
    logged = λ k s e. cc;
    upper = λ i k d e. cc;
    least = λ k s c e. cc;
  }

  -- An acknowledgement changes neither the state nor the log.
  pub ack-IsLogged : (sender : Str) (n : ℕ) (p : Part S) → IsLogged p → IsLogged (ack sender n p)
  unfolding ack
  ack-IsLogged sender n p v = record {
    live_distinct = v.live_distinct;
    live_valid = v.live_valid;
    delta_distinct = v.delta_distinct;
    delta_valid = v.delta_valid;
    before_seq = v.before_seq;
    logged =
        λ k s e. let l = v.logged k s e in record { at = l.at; value = l.value; found = l.found };
    upper = v.upper;
    least = v.least;
  }
