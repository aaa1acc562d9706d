-- ===== src/Swim/Peers/Skip.antt =====
-- What the death of the peer whose turn has just been makes of the next turn.
use commute.Prelude.{
  str_eq, suc, ◌+◌, ◌≤◌, some, List, [], ◌∷◌, ◌++◌, Bool, true, false, ◌≡◌, refl, sym, ◌∙◌, ap,
  arith, str_beq_iff, leb, nat_beq, length, length-append, get_elem?, lookup, insert, count,
  count-append, delete_func, Bool-cases, inl, inr,
}
use commute.Swim.Types.{Event, Peer, has_addr, Rng}
use commute.Swim.Peers.{Peers, process, act, delete, emit, next_probe, take_turn}
use commute.Swim.Peers.Join.{members}
use commute.Swim.Peers.Death.{said_dead, death, not_repeated}

delete_none : {A : Type 0} (f : A → Bool) (xs : List A) → count f xs ≡ 0 → delete_func f xs ≡ xs
unfolding delete_func
delete_none f [] h = refl
delete_none f (x ∷ xs) h =
    let q : f x ≡ false = ground arith in
    let rest : delete_func f xs ≡ xs = delete_none f xs (ground arith) in rw (q, rest) refl

delete_only :
    {A : Type 0} (f : A → Bool) (xs : List A) (a : A) (zs : List A)
    → f a ≡ true
    → count f (xs ++ a ∷ zs) ≡ 1
    → delete_func f (xs ++ a ∷ zs) ≡ xs ++ zs
unfolding delete_func
delete_only f [] a zs t h = rw (t, delete_none f zs (ground arith)) refl
delete_only f (x ∷ xs) a zs t h =
    let more : 1 ≤ count f (xs ++ a ∷ zs) = rw (count-append f xs (a ∷ zs)) (ground arith) in
    let q : f x ≡ false = ground arith in rw (q, delete_only f xs a zs t (ground arith)) refl

second :
    {A : Type 0} (xs : List A) (b c : A) (ys : List A)
    → get_elem? (xs ++ b ∷ c ∷ ys) (suc (length xs)) ≡ some c
second [] b c ys = refl
second (x ∷ xs) b c ys = second xs b c ys

module _ (R : Rng) where
  next_probe-emit :
      (done : Bool) (e : Event) (p : Peers R)
      → (next_probe R (emit R done e p)).0 ≡ (next_probe R p).0
  unfolding next_probe take_turn emit
  next_probe-emit true e p = refl
  next_probe-emit false e p = elim (Bool-cases (nat_beq (length p.peers) 0)) [
    | inl q ↦ rw q refl
    | inr q ↦ elim (Bool-cases (leb (length p.peers) p.probe_cursor)) [
      | inl r ↦ rw (q, r) refl
      | inr r ↦ rw (q, r) refl
    ]
  ]

  next_probe-second :
      (xs : List Peer) (b c : Peer) (ys : List Peer) (p : Peers R)
      → p.peers ≡ xs ++ b ∷ c ∷ ys
      → p.probe_cursor ≡ suc (length xs)
      → (next_probe R p).0 ≡ some c
  unfolding next_probe take_turn
  next_probe-second xs b c ys p e f =
      let size : length p.peers ≡ length xs + 2 + length ys =
        rw e (omega (arith, length-append xs (b ∷ c ∷ ys))) in
      let n : nat_beq (length p.peers) 0 ≡ false = ground arith in
      let l : leb (length p.peers) p.probe_cursor ≡ false = ground arith in
      rw (n, l) (rw (e, f) (second xs b c ys))

  -- The peer `a`, whose turn has just been and that is on the list once, is declared dead; its last event
  -- did not say so. The peer that is probed next is then not the one behind it, `b`, but the one after
  -- that: delete moves the list, and leaves the cursor where it is.
  pub next_probe-death :
      (done : Bool) (xs : List Peer) (a b c : Peer) (ys : List Peer) (p : Peers R)
      → p.peers ≡ xs ++ a ∷ b ∷ c ∷ ys
      → p.probe_cursor ≡ suc (length xs)
      → members R a.udp_addr p ≡ 1
      → said_dead (lookup a.udp_addr p.state) ≡ false
      → ((next_probe R p).0 ≡ some b)
        × ((next_probe R (process R done (death a.udp_addr) p)).0 ≡ some c)
  unfolding process act delete
  next_probe-death done xs a b c ys p e f once h =
      let q = record p { state = insert a.udp_addr (death a.udp_addr) p.state } in
      let left : delete_func (has_addr a.udp_addr) p.peers ≡ xs ++ b ∷ c ∷ ys =
        ap (delete_func (has_addr a.udp_addr)) e
        ∙ delete_only (has_addr a.udp_addr) xs a (b ∷ c ∷ ys)
            ((str_beq_iff a.udp_addr a.udp_addr).1 refl)
            (ap (count (has_addr a.udp_addr)) (sym e) ∙ once) in
      (
        next_probe-second xs a b (c ∷ ys) p e f,
        rw (not_repeated R (lookup a.udp_addr p.state) a.udp_addr h) (
            next_probe-emit done (death a.udp_addr) (delete R a.udp_addr q)
            ∙ next_probe-second xs b c ys (delete R a.udp_addr q) left f),
      )
