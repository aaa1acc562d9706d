-- ===== src/Store/Part/Sync/Promise.antt =====
-- What an acknowledgement promises, and that gossip brings a peer up to date.
use commute.Prelude.{
  str_eq, nat_eq, ℕ, ◌+◌, ◌-◌, ◌<◌, ◌≤◌, max, Str, Map, Option, none, some, [], ◌∷◌, ◌≡◌, ◌⊎◌, refl,
  sym, ◌∙◌, ap, subst, inl, inr, arith, lookup, lookup-insert, or_else, length, u64, Bool-cases,
  nat_beq, ltb, str_beq_iff, ltb→lt, List, Map,
}
use mathlib.Core.Option.{some-injective}
use commute.Crdt.Replicated.{Replicated}
use commute.Store.Part.{Part, ack, receive, delta, acked, interval_from}
use commute.Store.Part.Log.{Holds, IsLogged, delta_at, at_key-some, ack-IsLogged}
use commute.Store.Part.Receive.{
  IsMessage, IsMessage-nil, receive-IsLogged, receive-Holds, receive-Holds_message,
}
use commute.Store.Part.Extends.{
  Follows, Follows-refl, receive-Follows, write-Follows, write-IsLogged,
}
use commute.Store.Part.Interval.{interval-IsMessage, interval-Holds_delta}
use commute.Store.Part.Sync.{
  Gossip, Link, In, first, later, Step, writes, receives, peer_writes, peer_receives, sends,
  delivers, acknowledges,
}

In-cases :
    {A : Type 0} {b : A} {l : List A} (P : A → Type 0)
    → P b
    → ((a : A) → In a l → P a)
    → (a : A) → In a (b ∷ l)
    → P a
In-cases P p all a (first e) = subst P e p
In-cases P p all a (later i) = all a i

module _ {S : Type 0} (R : Replicated S) where
  -- The peer holds every delta of the sender below `n`.
  pub record Covers (sender peer : Part S) (n : ℕ) : Type 0 where
    pub bound : n ≤ sender.seq
    pub held :
        (i : ℕ) (k : Str) (d : S)
        → i < n
        → delta_at sender.deltas i k ≡ some d
        → Holds R peer.live k d

  -- With the message, the peer will hold every delta of the sender below the message's number.
  pub record Completes (sender peer : Part S) (g : Gossip S) : Type 0 where
    pub bound : g.seq ≤ sender.seq
    pub message : IsMessage R g.state
    pub held :
        (i : ℕ) (k : Str) (d : S)
        → i < g.seq
        → delta_at sender.deltas i k ≡ some d
        → Holds R peer.live k d ⊎ Holds R g.state k d

  pub record Promise (peer_addr : Str) (l : Link S) : Type 0 where
    pub sender : IsLogged R l.sender
    pub peer : IsLogged R l.peer
    pub acked : Covers l.sender l.peer (acked l.sender peer_addr)
    pub gossips : (g : Gossip S) → In g l.gossips → Completes l.sender l.peer g
    pub acks : (n : ℕ) → In n l.acks → Covers l.sender l.peer n

  module _ {s s' p p' : Part S} (f : Follows R s s') (g : Follows R p p') where
    Covers-follows : (n : ℕ) → Covers s p n → Covers s' p' n
    Covers-follows n c = record {
      bound = omega (arith, f.seq, c.bound);
      held = λ i k d h e. g.holds k d (c.held i k d h (f.agrees i k d (omega (arith, c.bound)) e));
    }

    Completes-follows : (m : Gossip S) → Completes s p m → Completes s' p' m
    Completes-follows m c = record {
      bound = omega (arith, f.seq, c.bound);
      message = c.message;
      held = λ i k d h e. elim (c.held i k d h (f.agrees i k d (omega (arith, c.bound)) e)) [
        | inl x ↦ inl (g.holds k d x)
        | inr y ↦ inr y
      ];
    }

  -- A value of the peer above one that holds `d` holds `d`.
  Holds-trans :
      {live msg : Map Str S} (k : Str) (d : S) (h : Holds R msg k d)
      → Holds R live k h.value
      → Holds R live k d
  Holds-trans k d h t = record {
    value = t.value;
    found = t.found;
    below = R.Below-trans d h.value t.value h.below t.below;
  }

  -- Merging a completing message brings the peer to the message's number.
  pub receive-Covers :
      (node : Str) (sender peer : Part S) (g : Gossip S)
      → IsLogged R peer
      → peer.seq + length g.state < u64
      → Completes sender peer g
      → Covers sender (receive R node g.state peer) g.seq
  receive-Covers node sender peer g v h c = record {
    bound = c.bound;
    held = λ i k d lt e. elim (c.held i k d lt e) [
      | inl x ↦ receive-Holds R node g.state peer v c.message h k d x
      | inr y ↦
          Holds-trans k d y
            (receive-Holds_message R node g.state peer v c.message h k y.value y.found)
    ];
  }

  live-IsMessage : (p : Part S) → IsLogged R p → IsMessage R p.live
  live-IsMessage p v = record { distinct = v.live_distinct; valid = v.live_valid }

  full-Completes :
      (sender peer : Part S)
      → IsLogged R sender
      → Completes sender peer (record { seq = sender.seq; state = sender.live })
  full-Completes sender peer v = record {
    bound = omega arith;
    message = live-IsMessage sender v;
    held = λ i k d h e. inr (v.upper i k d e);
  }

  interval-Completes :
      (sender peer : Part S) (n : ℕ)
      → IsLogged R sender
      → Covers sender peer n
      → Completes sender peer
          (record { seq = sender.seq; state = interval_from R (sender.seq - n) n sender.deltas [] })
  interval-Completes sender peer n v c = record {
    bound = omega arith;
    message = interval-IsMessage R (sender.seq - n) n sender [] v (IsMessage-nil R);
    held = λ i k d h e. elim (Bool-cases (ltb i n)) [
      | inl q ↦ inl (c.held i k d (ltb→lt i n q) e)
      | inr q ↦ inr (
          interval-Holds_delta R (sender.seq - n) n i sender [] v (IsMessage-nil R) (ground arith)
            (omega (arith, c.bound)) k d e)
    ];
  }

  Completes-of_eq :
      (sender peer : Part S) (m : Map Str S) (seq : ℕ) (state : Map Str S)
      → Completes sender peer (record { seq = sender.seq; state = m })
      → ◌≡◌ {A = Option (ℕ × Map Str S)} (some (sender.seq, m)) (some (seq, state))
      → (seq ≡ sender.seq) × Completes sender peer (record { seq = seq; state = state })
  Completes-of_eq sender peer m seq state c e =
      let f = some-injective _ _ e in
      (
        sym (ap (λ (t : ℕ × Map Str S). t.0) f),
        subst (λ (t : ℕ × Map Str S). Completes sender peer (record { seq = t.0; state = t.1 })) f
            c,
      )

  -- What Delta sends completes the peer's history up to the present.
  pub delta-Completes :
      (peer_addr : Str) (sender peer : Part S) (seq : ℕ) (state : Map Str S)
      → IsLogged R sender
      → Covers sender peer (acked sender peer_addr)
      → delta R peer_addr sender ≡ some (seq, state)
      → (seq ≡ sender.seq) × Completes sender peer (record { seq = seq; state = state })
  unfolding delta
  delta-Completes a sender peer seq state v c e = elim (Bool-cases (nat_beq (acked sender a) 0)) [
    | inl q ↦ Completes-of_eq sender peer _ seq state (full-Completes sender peer v) (rw q at e)
    | inr q ↦ elim (Bool-cases (ltb (acked sender a) sender.seq)) [
      | inl r ↦
          Completes-of_eq sender peer _ seq state
            (interval-Completes sender peer (acked sender a) v c) (rw (q, r) at e)
      | inr r ↦ ground arith
    ]
  ]

  -- Delta sends nothing only if the peer has acknowledged everything.
  pub delta-none :
      (peer_addr : Str) (sender : Part S)
      → delta R peer_addr sender ≡ none
      → sender.seq ≤ acked sender peer_addr
  unfolding delta
  delta-none a sender e = ground arith

  logged_before :
      (p : Part S) (i : ℕ) (k : Str) (d : S)
      → IsLogged R p
      → delta_at p.deltas i k ≡ some d
      → i < p.seq
  logged_before p i k d v e =
      let (m, f, g) = at_key-some k (lookup i p.deltas) d e in v.before_seq i m f

  -- A peer that holds all deltas of a type holds all values of this type.
  pub Covers-all :
      (sender peer : Part S)
      → IsLogged R sender
      → IsLogged R peer
      → Covers sender peer sender.seq
      → (k : Str) (s : S) → lookup k sender.live ≡ some s
      → Holds R peer.live k s
  Covers-all sender peer v w c k s e =
      let l = v.logged k s e in
      let h = c.held l.at k l.value (logged_before sender l.at k l.value v l.found) l.found in
      record {
        value = h.value;
        found = h.found;
        below = v.least k s h.value e (w.live_valid k h.value h.found) λ i d f.
            same_value k d h.value (c.held i k d (logged_before sender i k d v f) f) h.found;
      }
    where
      same_value :
          (k : Str) (d t : S)
          → (h : Holds R peer.live k d) → lookup k peer.live ≡ some t
          → R.Below d t
      same_value k d t h f = subst (R.Below d) (some-injective h.value t (sym h.found ∙ f)) h.below

  module _ (node peer_node peer_addr : Str) where
    acked-ack :
        (p : Part S) (n : ℕ) → acked (ack peer_addr n p) peer_addr ≡ max (acked p peer_addr) n
    unfolding ack
    acked-ack p n = rw (
      lookup-insert peer_addr peer_addr (max (acked p peer_addr) n) p.acks,
      (str_beq_iff peer_addr peer_addr).1 refl,
    )

    Covers-ack : (s p : Part S) (m n : ℕ) → Covers s p m → Covers (ack peer_addr n s) p m
    unfolding ack
    Covers-ack s p m n c = record { bound = c.bound; held = c.held }

    Covers-max : (s p : Part S) (m n : ℕ) → Covers s p m → Covers s p n → Covers s p (max m n)
    Covers-max s p m n c d = record {
      bound = omega (arith, c.bound, d.bound);
      held = λ i k x h e. elim (Bool-cases (ltb i m)) [
        | inl q ↦ c.held i k x (ltb→lt i m q) e
        | inr q ↦ d.held i k x (ground arith) e
      ];
    }

    Completes-ack :
        (s p : Part S) (g : Gossip S) (n : ℕ) → Completes s p g → Completes (ack peer_addr n s) p g
    unfolding ack
    Completes-ack s p g n c = record { bound = c.bound; message = c.message; held = c.held }

    -- Growth of either side keeps the promise.
    carry :
        (l : Link S) (s p : Part S)
        → Promise peer_addr l
        → IsLogged R s
        → IsLogged R p
        → Follows R l.sender s
        → Follows R l.peer p
        → Promise peer_addr (record l { sender = s; peer = p })
    carry l s p v ls lp f g = record {
      sender = ls;
      peer = lp;
      acked =
          rw (ap (λ (m : Map Str ℕ). or_else (lookup peer_addr m) 0) f.acks)
            (Covers-follows f g (acked l.sender peer_addr) v.acked);
      gossips = λ m i. Completes-follows f g m (v.gossips m i);
      acks = λ n i. Covers-follows f g n (v.acks n i);
    }

    -- Every event of the link keeps the promise.
    pub Step-Promise :
        {l m : Link S}
        → Step R node peer_node peer_addr l m
        → Promise peer_addr l
        → Promise peer_addr m
    Step-Promise {l} (writes k f keeps room e) v = rw e (
        carry l _ l.peer v (write-IsLogged R node k f l.sender v.sender keeps room) v.peer
          (write-Follows R node k f l.sender v.sender keeps room) (Follows-refl R l.peer))
    Step-Promise {l} (receives msg w room e) v = rw e (
        carry l _ l.peer v (receive-IsLogged R node msg l.sender v.sender w room) v.peer
          (receive-Follows R node msg l.sender v.sender w room) (Follows-refl R l.peer))
    Step-Promise {l} (peer_writes k f keeps room e) v = rw e (
        carry l l.sender _ v v.sender (write-IsLogged R peer_node k f l.peer v.peer keeps room)
          (Follows-refl R l.sender) (write-Follows R peer_node k f l.peer v.peer keeps room))
    Step-Promise {l} (peer_receives msg w room e) v = rw e (
        carry l l.sender _ v v.sender (receive-IsLogged R peer_node msg l.peer v.peer w room)
          (Follows-refl R l.sender) (receive-Follows R peer_node msg l.peer v.peer w room))
    Step-Promise {l} (sends seq state d e) v = rw e (record {
      sender = v.sender;
      peer = v.peer;
      acked = v.acked;
      gossips = λ g i.
          In-cases (Completes l.sender l.peer)
            (delta-Completes peer_addr l.sender l.peer seq state v.sender v.acked d).1 v.gossips g
            i;
      acks = v.acks;
    })
    Step-Promise {l} (delivers g i room e) v =
        let w = (v.gossips g i).message in
        let u =
          carry l l.sender (receive R peer_node g.state l.peer) v v.sender
            (receive-IsLogged R peer_node g.state l.peer v.peer w room) (Follows-refl R l.sender)
            (receive-Follows R peer_node g.state l.peer v.peer w room) in
        rw e (record {
          sender = u.sender;
          peer = u.peer;
          acked = u.acked;
          gossips = u.gossips;
          acks =
              In-cases (Covers l.sender (receive R peer_node g.state l.peer))
                (receive-Covers peer_node l.sender l.peer g v.peer room (v.gossips g i)) u.acks;
        })
    Step-Promise {l} (acknowledges n i e) v = rw e (record {
      sender = ack-IsLogged R peer_addr n l.sender v.sender;
      peer = v.peer;
      acked =
          rw (acked-ack l.sender n)
            (Covers-ack l.sender l.peer _ n (Covers-max l.sender l.peer _ n v.acked (v.acks n i)));
      gossips = λ g j. Completes-ack l.sender l.peer g n (v.gossips g j);
      acks = λ m j. Covers-ack l.sender l.peer m n (v.acks m j);
    })
