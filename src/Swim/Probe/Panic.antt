-- ===== src/Swim/Probe/Panic.antt =====
-- When the messages that ask for an indirect ping make NewMessage panic.
use commute.Prelude.{
  ◌<◌, ◌≤◌, Str, Option, none, some, List, [], ◌∷◌, Bool, true, false, not, ◌&&◌, ◌≡◌, inl, inr,
  refl, ◌∙◌, ap, arith, ltb, nat_beq, length, is_some, Bool-cases,
}
use commute.Swim.Types.{Peer, Rng}
use commute.Swim.Subgroup.{k_random_peers}
use commute.Swim.Message.{new_message}
use commute.Swim.Probe.{
  waiting, ack_timeout, Probe, post, ask, ask_indirects, on_waiting, take_signal,
}
use commute.Swim.Probe.Waiting.{take_signal-waiting, ask_indirects-Still}

-- Whether there is a peer to ask.
abbrev pub some_peer : Option (List Peer) → Bool
some_peer none = false
some_peer (some []) = false
some_peer (some (q ∷ rest)) = true

module _ (R : Rng) (self : Str) where
  ask-long :
      (q : Peer) (rest : List Peer) (p : Peer) (s : Probe R self)
      → 1 ≤ length self
      → 47 < length p.udp_addr
      → ask R self (q ∷ rest) p s ≡ none
  unfolding ask post new_message
  ask-long q rest p s n l =
      let e : nat_beq (length self) 0 ≡ false = ground arith in
      let f : ltb 47 (length p.udp_addr) ≡ true = ground arith in rw (e, f) refl

  ask_indirects-panic :
      (o : Option (List Peer)) (p : Peer) (s : Probe R self)
      → 1 ≤ length self
      → s.phase ≡ waiting p
      → is_some (ask_indirects R self o p s) ≡ not (some_peer o && ltb 47 (length p.udp_addr))
  unfolding ask_indirects
  ask_indirects-panic none p s n e = refl
  ask_indirects-panic (some []) p s n e = refl
  ask_indirects-panic (some (q ∷ rest)) p s n e = elim (Bool-cases (ltb 47 (length p.udp_addr))) [
    | inl l ↦ rw (ask-long q rest p s n (ground arith), l) refl
    | inr l ↦
        let t = ask_indirects-Still R self n p (ground arith) (some (q ∷ rest)) s e in
        rw (t.succeeds, l) refl
  ]

  -- The node, whose own address is not empty, waits for the answer of a peer, and the time for the ack
  -- runs out. The node panics if and only if there is a peer to ask for an indirect ping and the
  -- address of the peer it waits for is longer than 47 bytes.
  pub ack_timeout_panics :
      (p : Peer) (s : Probe R self)
      → 1 ≤ length self
      → s.phase ≡ waiting p
      → is_some (take_signal R self ack_timeout s)
        ≡ not (some_peer (k_random_peers R p s.peers).0 && ltb 47 (length p.udp_addr))
  unfolding on_waiting
  ack_timeout_panics p s n e =
      let (indirects, peers) = k_random_peers R p s.peers in
      ap is_some (take_signal-waiting R self p ack_timeout s e)
      ∙ ask_indirects-panic indirects p (record s { peers = peers }) n e
