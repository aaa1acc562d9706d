-- ===== src/Swim/Bootstrap/Exchange.antt =====
-- What two nodes know of each other once one has joined the other. peers.join takes its caller off the
-- dead list (internal/swim/swim.go), while README.md and TODO.md still say that a node that was declared
-- dead cannot rejoin, and that the join handler blocks it.
use commute.Prelude.{
  str_eq, ℕ, Str, Option, some, List, [], ◌∷◌, ◌++◌, Bool, true, ◌≡◌, ◌≢◌, inl, inr, refl, sym, ◌∙◌,
  arith, lookup, insert, str_beq, str_beq_iff, contains_func, Bool-cases,
}
use commute.Swim.Types.{alive, Peer, has_addr, JoinBody, Rng}
use commute.Swim.Peers.{
  Peers, join, process, process_added, act, is_repeated, member_join, as_join_body,
}
use commute.Swim.Peers.Join.{members}
use commute.Swim.Peers.Invariant.{IsValid, member_join-IsValid, join-readmits}
use commute.Swim.Peers.Death.{members-emit}
use commute.Swim.Bootstrap.{joined, join_seeds, join_handler}

module _ (R : Rng) where
  members-process_alive :
      (done : Bool) (a b : Str) (p : Peers R)
      → members R b (process R done (record { kind = alive; node = a }) p) ≡ members R b p
  unfolding process act
  members-process_alive done a b p =
      elim (Bool-cases (is_repeated R (lookup a p.state) (record { kind = alive; node = a }))) [
        | inl q ↦ rw q refl
        | inr q ↦ rw q (
            members-emit R done (record { kind = alive; node = a })
              (record p { state = insert a (record { kind = alive; node = a }) p.state }) b)
      ]

  members-process_added :
      (done : Bool) (added : List Peer) (b : Str) (p : Peers R)
      → members R b (process_added R done added p) ≡ members R b p
  unfolding process_added
  members-process_added done [] b p = refl
  members-process_added done (q ∷ rest) b p =
      members-process_added done rest b
        (process R done (record { kind = alive; node = q.udp_addr }) p)
      ∙ members-process_alive done q.udp_addr b p

  lists-last :
      (a : Str) (ps : List Peer) (port : ℕ)
      → contains_func (has_addr a) (ps ++ (record { udp_addr = a; http_port = port }) ∷ []) ≡ true
  unfolding contains_func
  lists-last a [] port = let q : str_beq a a ≡ true = (str_beq_iff a a).1 refl in rw q refl
  lists-last a (p ∷ ps) port = ground (arith, lists-last a ps port)

  -- The node of a join body that as_join_body makes is a member afterwards.
  members-join_of :
      (done : Bool) (self a : Str) (port : ℕ) (p q : Peers R)
      → IsValid R self p
      → a ≢ self
      → members R a (member_join R done self (as_join_body R q a port) p) ≡ 1
  unfolding member_join as_join_body
  members-join_of done self a port p q v n =
      let body : JoinBody = record {
        src = a;
        peers = q.peers ++ (record { udp_addr = a; http_port = port }) ∷ [];
      } in
      members-process_added done (join R self body p).0 a (join R self body p).1
      ∙ (join-readmits R self body p v n (lists-last a q.peers port)).0

  -- Node `a` sends its members to the seed `b`, and joins the answer. The seed answers 200, both member
  -- lists stay valid, and each node is exactly once a member of the other's list, whatever the two knew
  -- of each other before: also if one held the other for dead. The two addresses are not the same, and
  -- the request is decoded to what was sent.
  pub members-exchange :
      (decode : Str → Option JoinBody) (request : Str) (done_a done_b : Bool) (a b : Str)
      (port_a port_b : ℕ) (p q : Peers R)
      → decode request ≡ some (as_join_body R p a port_a)
      → a ≢ b
      → IsValid R a p
      → IsValid R b q
      → (answer : JoinBody) × (seed : Peers R) × (join_handler R decode done_b b port_b
            (some request)
            q
          ≡ ((200, some answer), seed))
        × (members R a seed ≡ 1)
        × (members R b (join_seeds R done_a a (joined answer ∷ []) p) ≡ 1)
        × IsValid R b seed
        × IsValid R a (join_seeds R done_a a (joined answer ∷ []) p)
  unfolding join_handler join_seeds
  members-exchange decode request done_a done_b a b port_a port_b p q e n v w =
      let req = as_join_body R p a port_a in
      let seed = member_join R done_b b req q in
      let answer = as_join_body R seed b port_b in
      (
        answer,
        seed,
        rw (e, join_handler) refl,
        members-join_of done_b b a port_a q p w n,
        members-join_of done_a a b port_b p seed v (λ r. n (sym r)),
        member_join-IsValid R b done_b req q w,
        member_join-IsValid R a done_a answer p v,
      )
