-- ===== src/Swim/Peers/Invariant.antt =====
-- The invariant of the member list, and what `process` and `delete` do.
use commute.Prelude.{
  str_eq, ℕ, ◌≤◌, Str, Map, none, some, List, [], ◌∷◌, Bool, true, false, ◌≡◌, ◌≢◌, refl, inl, inr,
  arith, if◌then◌else◌, str_beq, str_beq_iff, lookup, insert, erase, lookup-insert, lookup-erase,
  is_some, contains_func, count-delete_func, count-delete_func_self, count-delete_func_le,
  Bool-cases,
}
use commute.Swim.Types.{EventKind, dead, alive, Event, Peer, has_addr, JoinBody, Rng}
use commute.Swim.Peers.{
  Peers, new, join, delete, emit, is_repeated, act, process, process_added, member_join,
}
use commute.Swim.Peers.Join.{members, members-join, dead-join}

module _ (R : Rng) (self : Str) where
  -- No address has two members, this node is no member of its own list, and no member is dead.
  pub record IsValid (p : Peers R) : Type 0 where
    pub unique : (a : Str) → members R a p ≤ 1
    pub no_self : members R self p ≡ 0
    pub not_dead : (a : Str) → is_some (lookup a p.dead_peers) ≡ true → members R a p ≡ 0

  pub new-IsValid : (n : ℕ) (g : R.Gen) → IsValid (new R n g)
  unfolding new lookup
  new-IsValid n g = record { unique = λ a. omega arith; no_self = refl; not_dead = λ a h. refl }

  -- A join keeps the invariant.
  pub join-IsValid : (body : JoinBody) (p : Peers R) → IsValid p → IsValid (join R self body p).1
  join-IsValid body p v = record {
    unique = λ a. rw (members-join R self a body p) (ground (arith, v.unique a));
    no_self = rw (members-join R self self body p, (str_beq_iff self self).1 refl) v.no_self;
    not_dead = λ a h. rw (members-join R self a body p) (
        ground
          (arith, dead-join R self body p, lookup-erase body.src a p.dead_peers, v.not_dead a));
  }

  members-delete_le : (a b : Str) (p : Peers R) → members R b (delete R a p) ≤ members R b p
  unfolding delete
  members-delete_le a b p = count-delete_func_le (has_addr a) (has_addr b) p.peers

  members-delete_self : (a : Str) (p : Peers R) → members R a (delete R a p) ≡ 0
  unfolding delete
  members-delete_self a p = count-delete_func_self (has_addr a) p.peers

  other : (a b : Str) (q : Peer) → a ≢ b → has_addr a q ≡ true → has_addr b q ≡ false
  other a b q h e = ground (arith, str_beq_iff q.udp_addr a, str_beq_iff q.udp_addr b)

  members-delete_ne : (a b : Str) (p : Peers R) → a ≢ b → members R b (delete R a p) ≡ members R b p
  unfolding delete
  members-delete_ne a b p h =
      count-delete_func (has_addr a) (has_addr b) p.peers (λ q. other a b q h)

  -- After a delete the address has no member, and every other address keeps its members.
  pub members-delete :
      (a b : Str) (p : Peers R)
      → members R b (delete R a p) ≡ (if str_beq a b then 0 else members R b p)
  members-delete a b p = elim (Bool-cases (str_beq a b)) [
    | inl q ↦ rw (q, (str_beq_iff a b).0 q) (members-delete_self b p)
    | inr q ↦ rw q (members-delete_ne a b p (λ e. ground (arith, str_beq_iff a b)))
  ]

  dead-delete :
      (a b : Str) (p : Peers R)
      → lookup b (delete R a p).dead_peers
        ≡ (if str_beq a b then some tt else lookup b p.dead_peers)
  unfolding delete
  dead-delete a b p = lookup-insert a b tt p.dead_peers

  delete-IsValid : (a : Str) (p : Peers R) → IsValid p → IsValid (delete R a p)
  delete-IsValid a p v = record {
    unique = λ b. rw (members-delete a b p) (ground (arith, v.unique b));
    no_self = rw (members-delete a self p) (ground (arith, v.no_self));
    not_dead = λ b h. rw (members-delete a b p) (ground (arith, v.not_dead b, dead-delete a b p));
  }

  emit-IsValid : (done : Bool) (e : Event) (p : Peers R) → IsValid p → IsValid (emit R done e p)
  unfolding emit
  emit-IsValid true e p v = v
  emit-IsValid false e p v = record {
    unique = v.unique;
    no_self = v.no_self;
    not_dead = v.not_dead;
  }

  act-IsValid :
      (done : Bool) (e : Event) (k : EventKind) (m : Map Str Event) (p : Peers R)
      → IsValid p
      → IsValid (act R done e k (record p { state = m }))
  unfolding act
  act-IsValid done e alive m p v =
      emit-IsValid done e _
        (record { unique = v.unique; no_self = v.no_self; not_dead = v.not_dead })
  act-IsValid done e dead m p v = emit-IsValid done e _ (
      delete-IsValid e.node _
        (record { unique = v.unique; no_self = v.no_self; not_dead = v.not_dead }))

  -- Processing an event keeps the invariant: no address has two members, this node is not a member of
  -- its own list, and no member is dead.
  pub process-IsValid :
      (done : Bool) (e : Event) (p : Peers R) → IsValid p → IsValid (process R done e p)
  unfolding process
  process-IsValid done e p v = elim (Bool-cases (is_repeated R (lookup e.node p.state) e)) [
    | inl q ↦ rw q v
    | inr q ↦ rw q (act-IsValid done e e.kind (insert e.node e p.state) p v)
  ]

  process_added-IsValid :
      (done : Bool) (added : List Peer) (p : Peers R)
      → IsValid p
      → IsValid (process_added R done added p)
  unfolding process_added
  process_added-IsValid done [] p v = v
  process_added-IsValid done (q ∷ rest) p v =
      process_added-IsValid done rest _ (process-IsValid done _ p v)

  -- A join request, with the events that it causes, keeps the invariant: no address has two members,
  -- this node is not a member of its own list, and no member is dead.
  pub member_join-IsValid :
      (done : Bool) (body : JoinBody) (p : Peers R)
      → IsValid p
      → IsValid (member_join R done self body p)
  unfolding member_join
  member_join-IsValid done body p v =
      process_added-IsValid done (join R self body p).0 _ (join-IsValid body p v)

  -- An address that is dead and is not the caller's stays dead and out of the member list through a
  -- join, whatever the message says of it.
  pub join-keeps_dead :
      (a : Str) (body : JoinBody) (p : Peers R)
      → IsValid p
      → is_some (lookup a p.dead_peers) ≡ true
      → body.src ≢ a
      → (is_some (lookup a (join R self body p).1.dead_peers) ≡ true)
        × (members R a (join R self body p).1 ≡ 0)
  join-keeps_dead a body p v h n =
      let still : is_some (lookup a (join R self body p).1.dead_peers) ≡ true = ground (
        arith,
        dead-join R self body p,
        lookup-erase body.src a p.dead_peers,
        str_beq_iff body.src a,
      ) in
      (still, (join-IsValid body p v).not_dead a still)

  -- The caller of a join that lists itself is a member afterwards, and not dead.
  pub join-readmits :
      (body : JoinBody) (p : Peers R)
      → IsValid p
      → body.src ≢ self
      → contains_func (has_addr body.src) body.peers ≡ true
      → (members R body.src (join R self body p).1 ≡ 1)
        × (lookup body.src (join R self body p).1.dead_peers ≡ none)
  join-readmits body p v n h =
      let gone : lookup body.src (erase body.src p.dead_peers) ≡ none =
        rw (lookup-erase body.src body.src p.dead_peers, (str_beq_iff body.src body.src).1 refl) in
      (
        rw (members-join R self body.src body p)
            (ground (arith, v.unique body.src, str_beq_iff body.src self)),
        rw (dead-join R self body p) gone,
      )
