-- ===== src/Store/Part/Receive.antt =====
-- A loop of `Store.Merge` keeps the log's invariant, forgets nothing, and takes in every entry of
-- the message.
use commute.Prelude.{
  str_eq, nat_eq, ℕ, ◌+◌, ◌<◌, ◌≤◌, Str, Map, Option, none, some, [], ◌∷◌, true, ◌≡◌, refl, inl,
  inr, arith, lookup, lookup_tail, lookup_head, Distinct, u64, length, Bool-cases, str_beq_iff,
  ◌==◌,
}
use commute.Crdt.Replicated.{Replicated}
use commute.Store.Part.{Part, absorb, receive_one, receive, is_known}
use commute.Store.Part.Log.{
  Holds, IsLogged, absorb-IsLogged, absorb-Holds, absorb-Holds_self, delta_at, old_delta,
}

module _ {S : Type 0} (R : Replicated S) where
  pub record IsMessage (msg : Map Str S) : Type 0 where
    pub distinct : Distinct msg
    pub valid : (k : Str) (e : S) → lookup k msg ≡ some e → R.IsValid e

  pub IsMessage-tail :
      (k : Str) (e : S) (msg : Map Str S) → IsMessage ((k, e) ∷ msg) → IsMessage msg
  IsMessage-tail k e msg v = record {
    distinct = v.distinct.1;
    valid = λ j d q. v.valid j d (lookup_tail k e msg j d v.distinct q);
  }

  pub IsMessage-nil : IsMessage []
  unfolding lookup
  IsMessage-nil = record { distinct = tt; valid = λ k e q. cc }

  seq-absorb : (node k : Str) (d : S) (p : Part S) → (absorb R node k d p).seq ≤ p.seq + 1
  unfolding absorb
  seq-absorb node k d p = omega arith

  pub seq-receive_one :
      (node k : Str) (d : S) (p : Part S) → (receive_one R node k d p).seq ≤ p.seq + 1
  unfolding receive_one
  seq-receive_one node k d p = elim (Bool-cases (is_known R (lookup k p.live) d)) [
    | inl q ↦ rw q (omega arith)
    | inr q ↦ rw q (seq-absorb node k d p)
  ]

  known-Holds :
      (k : Str) (d : S) (p : Part S) (o : Option S)
      → IsLogged R p
      → R.IsValid d
      → lookup k p.live ≡ o
      → is_known R o d ≡ true
      → Holds R p.live k d
  unfolding is_known
  known-Holds k d p none v w e q = cc
  known-Holds k d p (some s) v w e q = record {
    value = s;
    found = e;
    below = R.below_of_test d s w (v.live_valid k s e) q;
  }

  module _ (node k : Str) (d : S) (p : Part S) (v : IsLogged R p) (valid : R.IsValid d) where
    pub receive_one-IsLogged : p.seq + 1 < u64 → IsLogged R (receive_one R node k d p)
    unfolding receive_one
    receive_one-IsLogged h = elim (Bool-cases (is_known R (lookup k p.live) d)) [
      | inl q ↦ rw q v
      | inr q ↦ rw q (absorb-IsLogged R node k d p v valid h)
    ]

    receive_one-Holds :
        (j : Str) (x : S) → Holds R p.live j x → Holds R (receive_one R node k d p).live j x
    unfolding receive_one
    receive_one-Holds j x h = elim (Bool-cases (is_known R (lookup k p.live) d)) [
      | inl q ↦ rw q h
      | inr q ↦ rw q (absorb-Holds R node k d p v valid j x h)
    ]

    receive_one-Holds_self : Holds R (receive_one R node k d p).live k d
    unfolding receive_one
    receive_one-Holds_self = elim (Bool-cases (is_known R (lookup k p.live) d)) [
      | inl q ↦ rw q (known-Holds k d p (lookup k p.live) v valid refl q)
      | inr q ↦ rw q (absorb-Holds_self R node k d p v valid k ((str_beq_iff k k).1 refl))
    ]

    receive_one-delta :
        (i : ℕ) (j : Str) (x : S)
        → delta_at p.deltas i j ≡ some x
        → delta_at (receive_one R node k d p).deltas i j ≡ some x
    unfolding receive_one
    receive_one-delta i j x e = elim (Bool-cases (is_known R (lookup k p.live) d)) [
      | inl q ↦ rw q e
      | inr q ↦ rw q (old_delta R node k d p v valid i j x e)
    ]

  -- Receiving a valid message keeps the log's invariant, that the state at each key is the least upper
  -- bound of the deltas logged for it, while the sequence numbers stay below 2^64.
  pub receive-IsLogged :
      (node : Str) (msg : Map Str S) (p : Part S)
      → IsLogged R p
      → IsMessage msg
      → p.seq + length msg < u64
      → IsLogged R (receive R node msg p)
  unfolding receive
  receive-IsLogged node [] p v w h = v
  receive-IsLogged node ((k, d) ∷ msg) p v w h =
      receive-IsLogged node msg (receive_one R node k d p)
        (receive_one-IsLogged node k d p v (w.valid k d (lookup_head k d msg)) (omega arith))
        (IsMessage-tail k d msg w) (omega (arith, seq-receive_one node k d p))

  -- What a part holds it still holds after a message.
  pub receive-Holds :
      (node : Str) (msg : Map Str S) (p : Part S)
      → IsLogged R p
      → IsMessage msg
      → p.seq + length msg < u64
      → (j : Str) (x : S) → Holds R p.live j x
      → Holds R (receive R node msg p).live j x
  unfolding receive
  receive-Holds node [] p v w h j x holds = holds
  receive-Holds node ((k, d) ∷ msg) p v w h j x holds =
      let valid = w.valid k d (lookup_head k d msg) in
      receive-Holds node msg (receive_one R node k d p)
        (receive_one-IsLogged node k d p v valid (omega arith)) (IsMessage-tail k d msg w)
        (omega (arith, seq-receive_one node k d p)) j x
        (receive_one-Holds node k d p v valid j x holds)

  -- After a valid message a part whose log is in order holds every entry of it, while the sequence
  -- numbers stay below 2^64.
  pub receive-Holds_message :
      (node : Str) (msg : Map Str S) (p : Part S)
      → IsLogged R p
      → IsMessage msg
      → p.seq + length msg < u64
      → (j : Str) (x : S) → lookup j msg ≡ some x
      → Holds R (receive R node msg p).live j x
  unfolding receive lookup
  receive-Holds_message node [] p v w h j x e = cc
  receive-Holds_message node ((k, d) ∷ msg) p v w h j x e =
      let valid = w.valid k d (lookup_head k d msg) in
      let v' = receive_one-IsLogged node k d p v valid (omega arith) in
      let h' : (receive_one R node k d p).seq + length msg < u64 =
        omega (arith, seq-receive_one node k d p) in
      elim (Bool-cases (k == j)) [
        | inl q ↦
            let f : d ≡ x = ground arith in
            receive-Holds node msg (receive_one R node k d p) v' (IsMessage-tail k d msg w) h' j x
              (rw (← (str_beq_iff k j).0 q, ← f) (receive_one-Holds_self node k d p v valid))
        | inr q ↦
            receive-Holds_message node msg (receive_one R node k d p) v' (IsMessage-tail k d msg w)
              h' j x (ground arith)
      ]
