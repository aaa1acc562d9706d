-- ===== src/Server/Peers.antt =====
-- Which senders the server accepts, as peers come and go.
use commute.Prelude.{
  str_eq, Str, Option, none, some, List, [], ◌∷◌, ◌++◌, Bool, true, false, ◌≡◌, ◌≢◌, ap, inl, inr,
  refl, arith, str_beq, str_beq_iff, contains_func, delete_func, Bool-cases,
}
use commute.Swim.Types.{alive, dead, Peer, new_peer}
use commute.Server.{
  Codec, Server, host, has_prefix, is_peer, known_sender, parse_node_addr, http_addr, notify,
  notify_event, post_gossip, post_ack, bad_request,
}

-- The text that the HTTP addresses of a peer's host begin with.
abbrev pub host_prefix : Peer → Str
host_prefix p = host p.udp_addr ++ 58 ∷ []

parse-known :
    (header : List Str) (srv : Server) (sender : Str)
    → parse_node_addr header srv ≡ some sender
    → is_peer sender srv ≡ true
unfolding parse_node_addr known_sender
parse-known [] srv sender e = cc
parse-known ([] ∷ []) srv sender e = cc
parse-known ((c ∷ s) ∷ []) srv sender e = ground arith
parse-known (a ∷ (b ∷ l)) srv sender e = cc

contains-delete :
    (q : Str → Bool) (s : Str) (xs : List Str)
    → q s ≡ true
    → contains_func (str_beq s) (delete_func q xs) ≡ false
unfolding contains_func delete_func
contains-delete q s [] h = refl
contains-delete q s (x ∷ xs) h = elim (Bool-cases (str_beq s x)) [
  | inl e ↦ let f : q x ≡ true = rw (← (str_beq_iff s x).0 e) h in rw f (contains-delete q s xs h)
  | inr e ↦ ground (arith, contains-delete q s xs h)
]

abbrev tail : Str → Str
tail [] = []
tail (c ∷ s) = s

unequal : (a b : Str) → a ≢ b → str_beq a b ≡ false
unequal a b n = elim (Bool-cases (str_beq a b)) [
  | inl q ↦ absurd (n ((str_beq_iff a b).0 q))
  | inr q ↦ q
]

module _ (C : Codec) where
  -- Once Notify has told the server that a peer is dead, no sender on that peer's host is accepted.
  pub parse_node_addr-notify_dead :
      (p : Peer) (srv : Server) (header : List Str) (sender : Str)
      → parse_node_addr header (notify C p dead srv) ≡ some sender
      → has_prefix sender (host_prefix p) ≡ false
  unfolding notify
  parse_node_addr-notify_dead p srv header sender e =
      elim (Bool-cases (has_prefix sender (host_prefix p))) [
        | inl h ↦
            let known = parse-known header (notify C p dead srv) sender e in
            absurd
              (cc (known, contains-delete (λ q. has_prefix q (host_prefix p)) sender srv.peers h))
        | inr h ↦ h
      ]

  contains-append : (s : Str) (xs : List Str) → contains_func (str_beq s) (xs ++ s ∷ []) ≡ true
  unfolding contains_func
  contains-append s [] = rw (str_beq_iff s s).1 refl
  contains-append s (x ∷ xs) = ground (arith, contains-append s xs)

  known-notify : (p : Peer) (srv : Server) → is_peer (http_addr C p) (notify C p alive srv) ≡ true
  unfolding notify
  known-notify p srv = elim (Bool-cases (is_peer (http_addr C p) srv)) [
    | inl h ↦ rw h h
    | inr h ↦ rw h (contains-append (http_addr C p) srv.peers)
  ]

  known_sender-some :
      (a : Str) (rest : Str) (x : Str) (srv : Server)
      → x ≡ a ++ 58 ∷ rest
      → is_peer x srv ≡ true
      → known_sender x srv ≡ some x
  unfolding known_sender
  known_sender-some [] rest [] srv e h = cc
  known_sender-some (b ∷ a) rest [] srv e h = cc
  known_sender-some a rest (c ∷ x) srv e h = rw h

  -- Once Notify has told the server that a peer is alive, a request whose header names the peer's
  -- HTTP address alone is accepted as the peer's.
  parse_node_addr-notify_alive :
      (p : Peer) (srv : Server)
      → parse_node_addr (http_addr C p ∷ []) (notify C p alive srv) ≡ some (http_addr C p)
  unfolding parse_node_addr
  parse_node_addr-notify_alive p srv =
      known_sender-some (host p.udp_addr) (C.format_uint p.http_port) (http_addr C p)
        (notify C p alive srv) (unfold http_addr in refl) (known-notify p srv)

  contains-append_other :
      (s t : Str) (xs : List Str)
      → contains_func (str_beq s) xs ≡ false
      → str_beq s t ≡ false
      → contains_func (str_beq s) (xs ++ t ∷ []) ≡ false
  unfolding contains_func
  contains-append_other s t [] h q = rw q refl
  contains-append_other s t (x ∷ xs) h q = ground (arith, contains-append_other s t xs)

  -- The HTTP address of a peer is not that of its host with the port 0.
  other_port : (h a b : Str) → a ≢ b → h ++ 58 ∷ a ≢ h ++ 58 ∷ b
  other_port [] a b n e = n (ap tail e)
  other_port (c ∷ h) a b n e = other_port h a b n (ap tail e)

  unknown-notify_event :
      (p : Peer) (srv : Server)
      → C.format_uint p.http_port ≢ C.format_uint 0
      → is_peer (http_addr C p) srv ≡ false
      → is_peer (http_addr C p) (notify_event C (record { kind = alive; node = p.udp_addr }) srv)
        ≡ false
  unfolding notify_event notify http_addr
  unknown-notify_event p srv n h =
      elim (Bool-cases (is_peer (http_addr C (new_peer p.udp_addr)) srv)) [
        | inl q ↦ rw q h
        | inr q ↦
            let other : str_beq (http_addr C p) (http_addr C (new_peer p.udp_addr)) ≡ false =
              unequal (http_addr C p) (http_addr C (new_peer p.udp_addr))
                (other_port (host p.udp_addr) (C.format_uint p.http_port) (C.format_uint 0) n) in
            rw q (
              contains-append_other (http_addr C p) (http_addr C (new_peer p.udp_addr)) srv.peers h
                other)
      ]

  parse-unknown :
      (addr : Str) (srv : Server)
      → is_peer addr srv ≡ false
      → parse_node_addr (addr ∷ []) srv ≡ none
  unfolding parse_node_addr known_sender
  parse-unknown [] srv h = refl
  parse-unknown (c ∷ s) srv h = rw h refl

  -- A peer whose HTTP port is not written as 0, and whose HTTP address the server does not know, is not
  -- known by it after the membership event that the peer is alive either: its gossip and its
  -- acknowledgements are answered 400 and change nothing. A Notify that names the peer's port would
  -- make the server accept the peer as a sender.
  pub post_gossip-notify_event :
      (p : Peer) (srv : Server) (body : Option Str)
      → C.format_uint p.http_port ≢ C.format_uint 0
      → is_peer (http_addr C p) srv ≡ false
      → (post_gossip C
            (http_addr C p ∷ [])
            body
            (notify_event C (record { kind = alive; node = p.udp_addr }) srv)
          ≡ some (
            (bad_request, none),
            notify_event C (record { kind = alive; node = p.udp_addr }) srv,
          ))
        × (post_ack C
              (http_addr C p ∷ [])
              body
              (notify_event C (record { kind = alive; node = p.udp_addr }) srv)
            ≡ (bad_request, notify_event C (record { kind = alive; node = p.udp_addr }) srv))
        × (parse_node_addr (http_addr C p ∷ []) (notify C p alive srv) ≡ some (http_addr C p))
  unfolding post_gossip post_ack
  post_gossip-notify_event p srv body n h =
      let after = notify_event C (record { kind = alive; node = p.udp_addr }) srv in
      let unknown : parse_node_addr (http_addr C p ∷ []) after ≡ none =
        parse-unknown (http_addr C p) after (unknown-notify_event p srv n h) in
      (
        rw (unknown, post_gossip) refl,
        rw (unknown, post_ack) refl,
        parse_node_addr-notify_alive p srv,
      )
