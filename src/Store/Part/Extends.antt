-- ===== src/Store/Part/Extends.antt =====
-- What a node's own writes and received messages do to its delta log: they add to its end.
use commute.Prelude.{
  str_eq, nat_eq, ℕ, ◌+◌, ◌<◌, ◌≤◌, Str, Map, some, [], ◌∷◌, ◌≡◌, refl, inl, inr, arith, lookup,
  lookup_head, length, u64, Bool-cases,
}
use commute.Crdt.Replicated.{Replicated}
use commute.Store.Part.{Part, absorb, write, receive_one, receive, is_known, current}
use commute.Store.Part.Log.{
  Holds, IsLogged, delta_at, delta-cases, absorb-IsLogged, absorb-Holds, current-IsValid,
}
use commute.Store.Part.Receive.{IsMessage, IsMessage-tail, receive_one-IsLogged, seq-receive_one}

module _ {S : Type 0} (R : Replicated S) where
  -- `q` follows `p`: its log agrees with `p`'s below `p`'s sequence number, and it holds what `p` does.
  pub record Follows (p q : Part S) : Type 0 where
    pub seq : p.seq ≤ q.seq
    pub acks : q.acks ≡ p.acks
    pub agrees :
        (i : ℕ) (k : Str) (d : S)
        → i < p.seq
        → delta_at q.deltas i k ≡ some d
        → delta_at p.deltas i k ≡ some d
    pub holds : (k : Str) (x : S) → Holds R p.live k x → Holds R q.live k x

  pub Follows-refl : (p : Part S) → Follows p p
  Follows-refl p = record {
    seq = omega arith;
    acks = refl;
    agrees = λ i k d h e. e;
    holds = λ k x h. h;
  }

  Follows-trans : {p q r : Part S} → Follows p q → Follows q r → Follows p r
  Follows-trans f g = record {
    seq = omega (arith, f.seq, g.seq);
    acks = cc (f.acks, g.acks);
    agrees = λ i k d h e. f.agrees i k d h (g.agrees i k d (omega (arith, f.seq)) e);
    holds = λ k x h. g.holds k x (f.holds k x h);
  }

  module _ (node k : Str) (d : S) (p : Part S) (v : IsLogged R p) (valid : R.IsValid d) where
    seq-absorb_le : p.seq + 1 < u64 → p.seq ≤ (absorb R node k d p).seq
    unfolding absorb
    seq-absorb_le h = omega arith

    acks-absorb : (absorb R node k d p).acks ≡ p.acks
    unfolding absorb
    acks-absorb = refl

    absorb-Follows : p.seq + 1 < u64 → Follows p (absorb R node k d p)
    absorb-Follows h = record {
      seq = seq-absorb_le h;
      acks = acks-absorb;
      agrees = λ i j x lt e. elim (delta-cases R node k d p v valid i j x e) [
        | inl (_, q, _) ↦ absurd (omega arith)
        | inr f ↦ f
      ];
      holds = absorb-Holds R node k d p v valid;
    }

    receive_one-Follows : p.seq + 1 < u64 → Follows p (receive_one R node k d p)
    unfolding receive_one
    receive_one-Follows h = elim (Bool-cases (is_known R (lookup k p.live) d)) [
      | inl q ↦ rw q (Follows-refl p)
      | inr q ↦ rw q (absorb-Follows h)
    ]

  pub receive-Follows :
      (node : Str) (msg : Map Str S) (p : Part S)
      → IsLogged R p
      → IsMessage R msg
      → p.seq + length msg < u64
      → Follows p (receive R node msg p)
  unfolding receive
  receive-Follows node [] p v w h = Follows-refl p
  receive-Follows node ((k, d) ∷ msg) p v w h =
      let valid = w.valid k d (lookup_head k d msg) in
      Follows-trans (receive_one-Follows node k d p v valid (omega arith)) (
        receive-Follows node msg (receive_one R node k d p)
          (receive_one-IsLogged R node k d p v valid (omega arith)) (IsMessage-tail R k d msg w)
          (omega (arith, seq-receive_one R node k d p)))

  module _ (node k : Str) (f : S → S) (p : Part S) (v : IsLogged R p)
      (keeps : (s : S) → R.IsValid s → R.IsValid (f s)) (room : p.seq + 1 < u64) where
    pub write-Follows : Follows p (write R node k f p)
    unfolding write
    write-Follows =
        absorb-Follows node k (f (current R node k p)) p v (keeps _ (current-IsValid R node k p v))
          room

    -- A write keeps the invariant of the log.
    pub write-IsLogged : IsLogged R (write R node k f p)
    unfolding write
    write-IsLogged =
        absorb-IsLogged R node k (f (current R node k p)) p v
          (keeps _ (current-IsValid R node k p v)) room
