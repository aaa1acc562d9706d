-- ===== src/Swim/Subgroup.antt =====
-- internal/swim/swim.go, kRandomPeers: the peers that are asked to probe another one in this node's
-- place. A list that maps.Values gives has the order of the association list.
use mathlib.Core.Option.{some-injective}
use commute.Prelude.{
  str_eq, ℕ, zero, suc, ◌+◌, ◌*◌, ◌≤◌, ◌<◌, Str, Map, Option, none, some, List, [], ◌∷◌, Bool, true,
  false, ◌≡◌, refl, arith, if◌then◌else◌, leb, nat_beq, length, get_elem?, lookup, insert, is_some,
  Bool-cases, Option-cases, inl, inr, delete_func, count, hit, sym, count-delete_func_le,
  count-delete_func_self, subst, str_beq, str_beq_iff,
}
use commute.Swim.Types.{Peer, has_addr, Rng}
use commute.Swim.Peers.{Peers}
use commute.Swim.Peers.Join.{members}
use commute.Swim.Peers.Rounds.{count-get_elem?}

unfoldable pub values : Map Str Peer → List Peer
values [] = []
values ((_, q) ∷ m) = q ∷ values m

module _ (R : Rng) where
  -- One round of the loop: the subgroup after the draw, and whether the loop goes on.
  unfoldable pub draw : ℕ → Option Peer → Map Str Peer → Bool × Map Str Peer
  draw size none sub = (false, sub)
  draw size (some q) sub =
      if is_some (lookup q.udp_addr sub)
      then (true, sub)
      else (let more = insert q.udp_addr q sub in
          (if nat_beq (length more) size then false else true, more))

  -- for range rounds
  unfoldable pub draw_loop : ℕ → ℕ → List Peer → Map Str Peer → R.Gen → Map Str Peer × R.Gen
  unfolding draw
  draw_loop zero size candidates sub g = (sub, g)
  draw_loop (suc rounds) size candidates sub g =
      let (i, g') = R.int_n (length candidates) g in
      let (again, more) = draw size (get_elem? candidates i) sub in
      elim again [ true ↦ draw_loop rounds size candidates more g' | false ↦ (more, g') ]

  -- kRandomPeers
  unfoldable pub k_random_peers : Peer → Peers R → Option (List Peer) × Peers R
  unfolding draw_loop values
  k_random_peers exclude p =
      let candidates = delete_func (has_addr exclude.udp_addr) p.peers in
      if nat_beq (length candidates) 0
      then (none, p)
      else if leb (length candidates) p.subgroup_size
      then (some candidates, p)
      else (let (sub, g) = draw_loop (3 * length candidates) p.subgroup_size candidates [] p.rng in
          (some (values sub), record p { rng = g }))

  insert_fresh :
      (k : Str) (q : Peer) (m : Map Str Peer)
      → lookup k m ≡ none
      → length (insert k q m) ≡ length m + 1
  unfolding lookup insert
  insert_fresh k q [] h = refl
  insert_fresh k q ((j, w) ∷ m) h = ground (arith, insert_fresh k q m)

  length-values : (m : Map Str Peer) → length (values m) ≡ length m
  unfolding values
  length-values [] = refl
  length-values ((k, q) ∷ m) = omega (arith, length-values m)

  candidate_lem :
      (exclude : Peer) (p : Peers R) (a : Str)
      → 1 ≤ count (has_addr a) (delete_func (has_addr exclude.udp_addr) p.peers)
      → (1 ≤ members R a p) × (str_beq exclude.udp_addr a ≡ false)
  candidate_lem exclude p a h = (
    omega (arith, count-delete_func_le (has_addr exclude.udp_addr) (has_addr a) p.peers),
    elim (Bool-cases (str_beq exclude.udp_addr a)) [
      | inl q ↦
          let s : count (has_addr a) (delete_func (has_addr exclude.udp_addr) p.peers) ≡ 0 =
            rw ((str_beq_iff exclude.udp_addr a).0 q)
              (count-delete_func_self (has_addr a) p.peers) in
          absurd (omega (arith, s))
      | inr q ↦ q
    ],
  )

  -- A subgroup that is not complete yet, or is complete.
  abbrev Bounded : ℕ → Bool → Map Str Peer → Type 0
  Bounded size true m = length m < size
  Bounded size false m = length m ≤ size

  draw-Bounded :
      (size : ℕ) (o : Option Peer) (sub : Map Str Peer)
      → length sub < size
      → Bounded size (draw size o sub).0 (draw size o sub).1
  unfolding draw
  draw-Bounded size none sub h = omega arith
  draw-Bounded size (some q) sub h = elim (Option-cases (lookup q.udp_addr sub)) [
    | inr (w, e) ↦ rw e h
    | inl e ↦ rw e (elim (Bool-cases (nat_beq (length (insert q.udp_addr q sub)) size)) [
      | inl f ↦ rw f (omega (arith, insert_fresh q.udp_addr q sub e))
      | inr f ↦ rw f (ground (arith, insert_fresh q.udp_addr q sub e))
    ])
  ]

  -- What the loop leaves, if every way on leaves it.
  continued :
      (P : Map Str Peer → Type 0) (again : Bool) (more : Map Str Peer) (rest : Map Str Peer × R.Gen)
      (g : R.Gen)
      → (again ≡ true → P rest.0)
      → (again ≡ false → P more)
      → P (elim again as (λ x. Map Str Peer × R.Gen) [ true ↦ rest | false ↦ (more, g) ]).0
  continued P true more rest g h k = h refl
  continued P false more rest g h k = k refl

  draw_loop_bound :
      (rounds size : ℕ) (candidates : List Peer) (sub : Map Str Peer) (g : R.Gen)
      → length sub < size
      → length (draw_loop rounds size candidates sub g).0 ≤ size
  unfolding draw_loop
  draw_loop_bound zero size candidates sub g h = omega arith
  draw_loop_bound (suc rounds) size candidates sub g h =
      let (i, g') = R.int_n (length candidates) g in
      let d = draw size (get_elem? candidates i) sub in
      let b = draw-Bounded size (get_elem? candidates i) sub h in
      continued (λ m. length m ≤ size) d.0 d.1 (draw_loop rounds size candidates d.1 g') g'
        (λ q. draw_loop_bound rounds size candidates d.1 g' (subst (λ t. Bounded size t d.1) q b))
        (λ q. subst (λ t. Bounded size t d.1) q b)

  -- Every address of the subgroup is a candidate's.
  abbrev From : List Peer → List Peer → Type 0
  From candidates qs = (a : Str) → 1 ≤ count (has_addr a) qs → 1 ≤ count (has_addr a) candidates

  nil-From : (candidates : List Peer) → From candidates (values [])
  unfolding values
  nil-From candidates a k = absurd (omega arith)

  count-values-insert :
      (f : Peer → Bool) (k : Str) (q : Peer) (m : Map Str Peer)
      → lookup k m ≡ none
      → count f (values (insert k q m)) ≡ count f (values m) + hit f q
  unfolding lookup insert values
  count-values-insert f k q [] h = omega arith
  count-values-insert f k q ((j, w) ∷ m) h = ground (arith, count-values-insert f k q m)

  draw-From :
      (size : ℕ) (candidates : List Peer) (i : ℕ) (o : Option Peer) (sub : Map Str Peer)
      → get_elem? candidates i ≡ o
      → From candidates (values sub)
      → From candidates (values (draw size o sub).1)
  unfolding draw
  draw-From size candidates i none sub e h = h
  draw-From size candidates i (some q) sub e h = elim (Option-cases (lookup q.udp_addr sub)) [
    | inr (w, f) ↦ rw f h
    | inl f ↦ rw f (λ a k. ground (
      arith,
      h a,
      count-values-insert (has_addr a) q.udp_addr q sub f,
      count-get_elem? (has_addr a) candidates i q e,
    ))
  ]

  draw_loop-From :
      (rounds size : ℕ) (candidates : List Peer) (sub : Map Str Peer) (g : R.Gen)
      → From candidates (values sub)
      → From candidates (values (draw_loop rounds size candidates sub g).0)
  unfolding draw_loop
  draw_loop-From zero size candidates sub g h = h
  draw_loop-From (suc rounds) size candidates sub g h =
      let (i, g') = R.int_n (length candidates) g in
      let d = draw size (get_elem? candidates i) sub in
      let b = draw-From size candidates i (get_elem? candidates i) sub refl h in
      continued (λ m. From candidates (values m)) d.0 d.1 (draw_loop rounds size candidates d.1 g')
        g' (λ q. draw_loop-From rounds size candidates d.1 g' b) (λ q. b)

  -- The peers that `kRandomPeers` gives are at most as many as the subgroup size, if that is at least
  -- 1, and an address of one of them is a member's and not the excluded peer's.
  pub k_random_peers_lem :
      (exclude : Peer) (p : Peers R) (qs : List Peer) (a : Str)
      → 1 ≤ p.subgroup_size
      → (k_random_peers exclude p).0 ≡ some qs
      → 1 ≤ count (has_addr a) qs
      → (length qs ≤ p.subgroup_size) × (1 ≤ members R a p) × (str_beq exclude.udp_addr a ≡ false)
  unfolding k_random_peers
  k_random_peers_lem exclude p qs a h e k =
      let cs = delete_func (has_addr exclude.udp_addr) p.peers in
      let chosen : (l : List Peer)
          → l ≡ qs
          → length l ≤ p.subgroup_size
          → From cs l
          → (length qs ≤ p.subgroup_size)
            × (1 ≤ members R a p)
            × (str_beq exclude.udp_addr a ≡ false) =
        (λ l q b f.
          let c =
            candidate_lem exclude p a (f a (subst (λ t. 1 ≤ count (has_addr a) t) (sym q) k)) in
          (subst (λ t. length t ≤ p.subgroup_size) q b, c.0, c.1)) in
      elim (Bool-cases (nat_beq (length cs) 0)) [
        | inl q ↦ absurd (let f : none ≡ some qs = rw q at e in cc)
        | inr q ↦ elim (Bool-cases (leb (length cs) p.subgroup_size)) [
          | inl r ↦ chosen cs (some-injective cs qs (rw (q, r) at e)) (ground arith) (λ a k. k)
          | inr r ↦
              let sub = (draw_loop (3 * length cs) p.subgroup_size cs [] p.rng).0 in
              chosen (values sub) (some-injective (values sub) qs (rw (q, r) at e))
                (omega (
                  arith,
                  length-values sub,
                  draw_loop_bound (3 * length cs) p.subgroup_size cs [] p.rng h,
                ))
                (draw_loop-From (3 * length cs) p.subgroup_size cs [] p.rng (nil-From cs))
        ]
      ]
