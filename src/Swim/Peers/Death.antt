-- ===== src/Swim/Peers/Death.antt =====
-- What `process` makes of the news that a node is dead.
use commute.Prelude.{
  str_eq, Str, Option, none, some, Bool, true, false, ◌≡◌, refl, if◌then◌else◌, str_beq,
  str_beq_iff, lookup, lookup-insert, insert, is_some,
}
use commute.Swim.Types.{dead, kind_beq, Event, Rng}
use commute.Swim.Peers.{Peers, process, act, is_repeated, delete, emit}
use commute.Swim.Peers.Join.{members}
use commute.Swim.Peers.Invariant.{members-delete}

-- Whether the last event of a node said that it is dead.
abbrev pub said_dead : Option Event → Bool
said_dead none = false
said_dead (some e) = kind_beq e.kind dead

abbrev pub death : Str → Event
death a = record { kind = dead; node = a }

module _ (R : Rng) where
  pub members-emit :
      (done : Bool) (e : Event) (p : Peers R) (a : Str)
      → members R a (emit R done e p) ≡ members R a p
  unfolding emit
  members-emit true e p a = refl
  members-emit false e p a = refl

  dead-emit :
      (done : Bool) (e : Event) (p : Peers R) (a : Str)
      → lookup a (emit R done e p).dead_peers ≡ lookup a p.dead_peers
  unfolding emit
  dead-emit true e p a = refl
  dead-emit false e p a = refl

  deleted : (a : Str) (q : Peers R) → is_some (lookup a (delete R a q).dead_peers) ≡ true
  unfolding delete
  deleted a q = rw (lookup-insert a a tt q.dead_peers, (str_beq_iff a a).1 refl)

  pub not_repeated :
      (o : Option Event) (a : Str) → said_dead o ≡ false → is_repeated R o (death a) ≡ false
  unfolding is_repeated
  not_repeated none a h = refl
  not_repeated (some e) a h = h

  -- News that a node is dead, when its last event was not that, take it off the member list and put it
  -- on the dead list; other addresses keep their members.
  pub process-death :
      (done : Bool) (a b : Str) (p : Peers R)
      → said_dead (lookup a p.state) ≡ false
      → (members R b (process R done (death a) p) ≡ (if str_beq a b then 0 else members R b p))
        × (is_some (lookup a (process R done (death a) p).dead_peers) ≡ true)
  unfolding process act
  process-death done a b p h =
      let q = record p { state = insert a (death a) p.state } in
      rw (not_repeated (lookup a p.state) a h) (
        rw (members-emit done (death a) (delete R a q) b) (members-delete R a a b q),
        rw (dead-emit done (death a) (delete R a q) a) (deleted a q),
      )
