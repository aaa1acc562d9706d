-- ===== src/Swim/Peers/Rounds.antt =====
-- Round-robin probing: `nextProbe` goes through the whole list between two shuffles.
use commute.Prelude.{
  str_eq, ℕ, zero, suc, ◌+◌, ◌≤◌, ◌<◌, Str, Option, some, List, [], ◌∷◌, map, Bool, true, ◌≡◌, refl,
  ◌∙◌, sym, ap, inl, inr, arith, leb, str_beq_iff, length, get_elem?, take, drop, swap, count,
  count-swap, length-swap, Bool-cases,
}
use commute.Swim.Types.{Peer, has_addr, Rng}
use commute.Swim.Peers.{Peers, shuffle_from, shuffle, next_probe}
use commute.Swim.Peers.Join.{members}

module _ {A : Type 0} where
  get_elem?_below : (xs : List A) (i : ℕ) → i < length xs → (x : A) × (get_elem? xs i ≡ some x)
  get_elem?_below [] i h = elim h [ ]
  get_elem?_below (x ∷ xs) zero h = (x, refl)
  get_elem?_below (x ∷ xs) (suc i) h = get_elem?_below xs i (omega arith)

  drop-cons :
      (xs : List A) (i : ℕ) (x : A) → get_elem? xs i ≡ some x → drop i xs ≡ x ∷ drop (suc i) xs
  drop-cons [] i x e = ground arith
  drop-cons (y ∷ xs) zero x e = ground arith
  drop-cons (y ∷ xs) (suc i) x e = drop-cons xs i x e

  drop-cons_add :
      (xs : List A) (i : ℕ) (x : A) → get_elem? xs i ≡ some x → drop i xs ≡ x ∷ drop (i + 1) xs
  drop-cons_add xs i x e =
      let j : suc i ≡ i + 1 = omega arith in drop-cons xs i x e ∙ ap (λ k. x ∷ drop k xs) j

  take_all : (xs : List A) → take (length xs) xs ≡ xs
  take_all [] = refl
  take_all (x ∷ xs) = ap (◌∷◌ x) (take_all xs)

  pub count-get_elem? :
      (p : A → Bool) (xs : List A) (i : ℕ) (x : A)
      → get_elem? xs i ≡ some x
      → p x ≡ true
      → 1 ≤ count p xs
  count-get_elem? p [] i x e h = ground arith
  count-get_elem? p (y ∷ xs) zero x e h = ground arith
  count-get_elem? p (y ∷ xs) (suc i) x e h = omega (arith, count-get_elem? p xs i x e h)

module _ (R : Rng) where
  count-shuffle_from :
      (q : Peer → Bool) (rounds i : ℕ) (xs : List Peer) (g : R.Gen)
      → count q (shuffle_from R rounds i xs g).0 ≡ count q xs
  unfolding shuffle_from
  count-shuffle_from q zero i xs g = refl
  count-shuffle_from q (suc rounds) i xs g =
      let (j, g') = R.int_n (i + 1) g in
      count-shuffle_from q rounds (i + 1) (swap xs i j) g' ∙ count-swap q xs i j

  length-shuffle_from :
      (rounds i : ℕ) (xs : List Peer) (g : R.Gen)
      → length (shuffle_from R rounds i xs g).0 ≡ length xs
  unfolding shuffle_from
  length-shuffle_from zero i xs g = refl
  length-shuffle_from (suc rounds) i xs g =
      let (j, g') = R.int_n (i + 1) g in
      length-shuffle_from rounds (i + 1) (swap xs i j) g' ∙ length-swap xs i j

  -- A shuffle permutes the list: it keeps the number of elements that pass any test.
  pub count-shuffle :
      (q : Peer → Bool) (xs : List Peer) (g : R.Gen) → count q (shuffle R xs g).0 ≡ count q xs
  unfolding shuffle
  count-shuffle q [] g = refl
  count-shuffle q (x ∷ xs) g = count-shuffle_from q (length xs) 1 (x ∷ xs) g

  length-shuffle : (xs : List Peer) (g : R.Gen) → length (shuffle R xs g).0 ≡ length xs
  unfolding shuffle
  length-shuffle [] g = refl
  length-shuffle (x ∷ xs) g = length-shuffle_from (length xs) 1 (x ∷ xs) g

  -- The probes of `n` periods.
  pub probes : ℕ → Peers R → List (Option Peer) × Peers R
  probes zero p = ([], p)
  probes (suc n) p =
      let (found, p') = next_probe R p in let (rest, q) = probes n p' in (found ∷ rest, q)

  next_probe_below :
      (p : Peers R) (x : Peer)
      → p.probe_cursor < length p.peers
      → get_elem? p.peers p.probe_cursor ≡ some x
      → next_probe R p ≡ (some x, record p { probe_cursor = p.probe_cursor + 1 })
  unfolding next_probe
  next_probe_below p x h e = ground arith

  -- Up to the end of the list, probes take the members in the order of the list.
  probes-take :
      (n : ℕ) (p : Peers R)
      → p.probe_cursor + n ≤ length p.peers
      → (probes n p).0 ≡ map some (take n (drop p.probe_cursor p.peers))
  unfolding probes
  probes-take zero p h = refl
  probes-take (suc n) p h =
      let (x, e) = get_elem?_below p.peers p.probe_cursor (omega arith) in
      rw (next_probe_below p x (omega arith) e, drop-cons_add p.peers p.probe_cursor x e)
        (ap (◌∷◌ (some x))
          (probes-take n (record p { probe_cursor = p.probe_cursor + 1 }) (omega arith)))

  abbrev reshuffled : Peers R → Peers R
  reshuffled p =
      let (xs, g) = shuffle R p.peers p.rng in record p { peers = xs; probe_cursor = 0; rng = g }

  next_probe-reshuffled :
      (p : Peers R)
      → 0 < length p.peers
      → length p.peers ≤ p.probe_cursor
      → next_probe R p ≡ next_probe R (reshuffled p)
  unfolding next_probe
  next_probe-reshuffled p h k = ground (arith, length-shuffle p.peers p.rng)

  probes_same :
      (n : ℕ) (p q : Peers R) → 0 < n → next_probe R p ≡ next_probe R q → probes n p ≡ probes n q
  unfolding probes
  probes_same zero p q h e = absurd (omega arith)
  probes_same (suc n) p q h e = rw e

  -- Once the list has been gone through, as many probes as there are members take a permutation of
  -- the members: each is probed once.
  pub probes_pass :
      (p : Peers R)
      → 0 < length p.peers
      → length p.peers ≤ p.probe_cursor
      → (xs : List Peer) × ((probes (length p.peers) p).0 ≡ map some xs)
        × ((q : Peer → Bool) → count q xs ≡ count q p.peers)
  probes_pass p h k =
      let xs = (shuffle R p.peers p.rng).0 in
      let same = length-shuffle p.peers p.rng in
      (
        xs,
        ap (λ (t : List (Option Peer) × Peers R). t.0)
              (probes_same (length p.peers) p (reshuffled p) h (next_probe-reshuffled p h k))
            ∙ probes-take (length p.peers) (reshuffled p) (omega arith)
            ∙ ap (λ n. map some (take n xs)) (sym same)
            ∙ ap (map some) (take_all xs),
        λ q. count-shuffle q p.peers p.rng,
      )

  abbrev Found : Peers R → Option Peer × Peers R → Type 0
  Found p r =
      (x : Peer) × (r.0 ≡ some x)
      × (1 ≤ members R x.udp_addr p)
      × ((a : Str) → members R a r.1 ≡ members R a p)
      × (r.1.probe_cursor ≤ length r.1.peers)

  next_probe-Found : (p : Peers R) → p.probe_cursor < length p.peers → Found p (next_probe R p)
  next_probe-Found p h =
      let (x, e) = get_elem?_below p.peers p.probe_cursor h in
      rw (next_probe_below p x h e) (
        x,
        refl,
        count-get_elem? (has_addr x.udp_addr) p.peers p.probe_cursor x e
            ((str_beq_iff x.udp_addr x.udp_addr).1 refl),
        λ a. refl,
        omega arith,
      )

  Found-reshuffled : (p : Peers R) (r : Option Peer × Peers R) → Found (reshuffled p) r → Found p r
  Found-reshuffled p r (x, e, m, same, c) = (
    x,
    e,
    rw (← count-shuffle (has_addr x.udp_addr) p.peers p.rng) m,
    λ a. same a ∙ count-shuffle (has_addr a) p.peers p.rng,
    c,
  )

  -- If there is a member, `nextProbe` finds one; no member is lost or added, and the cursor stays
  -- within the list.
  next_probe_lem :
      (p : Peers R)
      → 0 < length p.peers
      → (x : Peer) × ((next_probe R p).0 ≡ some x)
        × (1 ≤ members R x.udp_addr p)
        × ((a : Str) → members R a (next_probe R p).1 ≡ members R a p)
        × ((next_probe R p).1.probe_cursor ≤ length (next_probe R p).1.peers)
  next_probe_lem p h = elim (Bool-cases (leb (length p.peers) p.probe_cursor)) [
    | inl q ↦ rw (next_probe-reshuffled p h (ground arith)) (
        Found-reshuffled p (next_probe R (reshuffled p))
          (next_probe-Found (reshuffled p) (omega (arith, length-shuffle p.peers p.rng))))
    | inr q ↦ next_probe-Found p (ground arith)
  ]
