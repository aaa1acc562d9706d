-- ===== src/Swim/Peers/Join.antt =====
-- What `peers.join` does to the member list.
use mathlib.Core.Path.{ap₂}
use commute.Prelude.{
  str_eq, ℕ, ◌+◌, max, Str, Map, List, [], ◌∷◌, ◌++◌, Bool, true, false, ◌≡◌, refl, ◌∙◌, inl, inr,
  arith, if◌then◌else◌, nat_beq, str_beq, str_beq_iff, lookup, erase, length, contains_func,
  is_some, count, count-append, count-swap, count-contains_func, hit, Bool-cases,
}
use commute.Swim.Types.{Peer, has_addr, JoinBody, Rng}
use commute.Swim.Peers.{Peers, add_peer, is_skipped, join_loop, join}

module _ (R : Rng) where
  -- How many members have the address.
  abbrev pub members : Str → Peers R → ℕ
  members a p = count (has_addr a) p.peers

  pub members-add_peer :
      (a : Str) (jp : Peer) (p : Peers R)
      → members a (add_peer R jp p) ≡ members a p + hit (has_addr a) jp
  unfolding add_peer
  members-add_peer a jp p = omega (
    arith,
    count-swap (has_addr a) (p.peers ++ jp ∷ []) (length p.peers)
        (R.int_n (length p.peers + 1) p.rng).0,
    count-append (has_addr a) p.peers (jp ∷ []),
  )

  dead-add_peer : (jp : Peer) (p : Peers R) → (add_peer R jp p).dead_peers ≡ p.dead_peers
  unfolding add_peer
  dead-add_peer jp p = refl

  pub dead-join_loop :
      (self : Str) (jps : List Peer) (p : Peers R)
      → (join_loop R self jps p).1.dead_peers ≡ p.dead_peers
  unfolding join_loop
  dead-join_loop self [] p = refl
  dead-join_loop self (jp ∷ jps) p = elim (Bool-cases (is_skipped R self jp.udp_addr p)) [
    | inl q ↦ rw (q, join_loop) (dead-join_loop self jps p)
    | inr q ↦ rw (q, join_loop) (dead-join_loop self jps (add_peer R jp p) ∙ dead-add_peer jp p)
  ]

  -- The addresses that a join may add: not this node's own, and not one that is dead.
  abbrev pub admitted : Str → Map Str Unit → Str → Bool
  admitted self dead a =
      if str_beq a self then false else if is_some (lookup a dead) then false else true

  abbrev pub joined : Bool → Bool → ℕ → ℕ
  joined true true n = max n 1
  joined _ _ n = n

  skip-members :
      (self a : Str) (p : Peers R)
      → is_skipped R self a p ≡ (
          if admitted self p.dead_peers a
          then (if nat_beq (members a p) 0 then false else true)
          else true)
  unfolding is_skipped
  skip-members self a p = rw (count-contains_func (has_addr a) p.peers) (ground arith)

  members-join_loop :
      (self a : Str) (jps : List Peer) (p : Peers R)
      → members a (join_loop R self jps p).1
        ≡ joined (admitted self p.dead_peers a) (contains_func (has_addr a) jps) (members a p)
  unfolding join_loop contains_func
  members-join_loop self a [] p = ground arith
  members-join_loop self a (jp ∷ jps) p = elim (Bool-cases (is_skipped R self jp.udp_addr p)) [
    | inl q ↦
        rw (q, join_loop)
          (elim (Bool-cases (str_beq jp.udp_addr a)) [
            | inl r ↦
                let s : is_skipped R self a p ≡ true = rw (← (str_beq_iff jp.udp_addr a).0 r) q in
                rw r (ground (arith, members-join_loop self a jps p, skip-members self a p))
            | inr r ↦ rw r (members-join_loop self a jps p)
          ])
    | inr q ↦
        let ih = members-join_loop self a jps (add_peer R jp p) in
        let ih' : members a (join_loop R self jps (add_peer R jp p)).1
            ≡ joined (admitted self p.dead_peers a) (contains_func (has_addr a) jps)
                (members a p + hit (has_addr a) jp) =
          ih
          ∙ ap₂ (λ d n. joined (admitted self d a) (contains_func (has_addr a) jps) n)
              (dead-add_peer jp p) (members-add_peer a jp p) in
        rw (q, join_loop)
          (elim (Bool-cases (str_beq jp.udp_addr a)) [
            | inl r ↦
                let s : is_skipped R self a p ≡ false = rw (← (str_beq_iff jp.udp_addr a).0 r) q in
                rw r (ground (arith, skip-members self a p))
            | inr r ↦ rw r (ground arith)
          ])
  ]

  -- Exactly what a join does to the members at an address: an address that the message lists becomes
  -- a member if it was none, unless it is this node's own or dead and not the caller's; all other
  -- addresses keep their members.
  pub members-join :
      (self a : Str) (body : JoinBody) (p : Peers R)
      → members a (join R self body p).1
        ≡ joined
            (admitted self (erase body.src p.dead_peers) a)
            (contains_func (has_addr a) body.peers)
            (members a p)
  unfolding join
  members-join self a body p =
      members-join_loop self a body.peers (record p { dead_peers = erase body.src p.dead_peers })

  -- A join takes its caller off the dead list, and no other address.
  pub dead-join :
      (self : Str) (body : JoinBody) (p : Peers R)
      → (join R self body p).1.dead_peers ≡ erase body.src p.dead_peers
  unfolding join
  dead-join self body p =
      dead-join_loop self body.peers (record p { dead_peers = erase body.src p.dead_peers })
