-- ===== src/Swim/Message/RoundTrip.antt =====
-- Decoding what was encoded.
use commute.Prelude.{
  nat_beq_iff, subst, ℕ, suc, ◌+◌, ◌-◌, ◌%◌, ◌≤◌, ◌<◌, Str, List, [], ◌∷◌, ◌++◌, true, false, ◌≡◌,
  refl, sym, ◌∙◌, ap, arith, ltb, leb, nat_beq, length, length-append, drop, u64,
}
use mathlib.Core.List.{append_assoc, append-nil}
use commute.Swim.Types.{EventKind, dead, alive, Event}
use commute.Swim.Message.Bytes.{
  big_endian, of_big_endian, of_big_endian-big_endian, length-big_endian, take-append, drop-append,
  get_elem?-append,
}
use commute.Swim.Message.{
  MessageKind, ping, ack, ping_req, Message, ok, in_range, index, slice, kind_byte, kind_of_byte,
  event_byte, event_of_byte, marshal_events, marshal_body, marshal, unmarshal_string,
  unmarshal_event, unmarshal_events, unmarshal,
}

-- Addresses fit their one-byte length and the decoder's limit.
abbrev pub AllFit : List Event → Type 0
AllFit [] = Unit
AllFit (e ∷ es) = (length e.node ≤ 47) × AllFit es

pub unmarshal_string-append :
    (n : ℕ) (xs ys : Str) → n ≡ length xs → n ≤ 47 → unmarshal_string n (xs ++ ys) ≡ ok xs
unfolding unmarshal_string
unmarshal_string-append n [] ys h b = ground arith
unmarshal_string-append n (x ∷ xs) ys h b =
    let room : ltb (length ((x ∷ xs) ++ ys)) n ≡ false = ground (arith, length-append xs ys) in
    let short : ltb 47 n ≡ false = ground arith in
    let some_bytes : nat_beq n 0 ≡ false = ground arith in
    rw (some_bytes, room, short, take-append n (x ∷ xs) ys h)

event_of_byte-event_byte : (k : EventKind) → event_of_byte (event_byte k) ≡ ok k
event_of_byte-event_byte dead = refl
event_of_byte-event_byte alive = refl

pub kind_of_byte-kind_byte : (k : MessageKind) → kind_of_byte (kind_byte k) ≡ ok k
kind_of_byte-kind_byte ping = refl
kind_of_byte-kind_byte ack = refl
kind_of_byte-kind_byte ping_req = refl

unmarshal_event-append :
    (e : Event) (more : List ℕ)
    → length e.node ≤ 47
    → unmarshal_event (event_byte e.kind ∷ (length e.node % 256) ∷ (e.node ++ more))
      ≡ ok (e, 2 + length e.node)
unfolding unmarshal_event
unmarshal_event-append e more h =
    let room : ltb (suc (suc (length (e.node ++ more)))) 2 ≡ false = ground arith in
    rw (
      room,
      event_of_byte-event_byte e.kind,
      unmarshal_string-append (length e.node % 256) e.node more (omega arith) (omega arith),
    )

-- Every event comes back, in its order.
pub unmarshal_events-marshal_events :
    (es : List Event) → AllFit es → unmarshal_events (length es) (marshal_events es) ≡ ok es
unfolding unmarshal_events marshal_events
unmarshal_events-marshal_events [] h = refl
unmarshal_events-marshal_events (e ∷ es) (h, hs) = rw (
  unmarshal_event-append e (marshal_events es) h,
  drop-append (2 + length e.node) 0 (event_byte e.kind ∷ (length e.node % 256) ∷ e.node)
      (marshal_events es) (omega arith),
  unmarshal_events-marshal_events es hs,
)

pub slice-append :
    (low high : ℕ) (xs ys zs : List ℕ)
    → low ≡ length xs
    → high ≡ length xs + length ys
    → slice (xs ++ (ys ++ zs)) low high ≡ ok ys
slice-append low high xs ys zs h k =
    let ordered : leb low high ≡ true = ground arith in
    let fits : leb high (length (xs ++ (ys ++ zs))) ≡ true =
      ground (arith, length-append xs (ys ++ zs), length-append ys zs) in
    rw (
      ordered,
      fits,
      drop-append low 0 xs (ys ++ zs) (omega arith),
      take-append (high - low) ys zs (omega arith),
    )

pub index-append :
    (n : ℕ) (xs : List ℕ) (b : ℕ) (ys : List ℕ) → n ≡ length xs → index (xs ++ b ∷ ys) n ≡ ok b
index-append n xs b ys h = ap in_range (get_elem?-append n 0 xs (b ∷ ys) (omega arith))

-- The decoder's steps, one hypothesis for each that has to succeed.
unmarshal_steps :
    (crc : List ℕ → ℕ) (input body sum : List ℕ) (src_len kind_b target_len count : ℕ)
    (kind : MessageKind) (src target : Str) (period rest : List ℕ) (events : List Event)
    → ltb (length input) 17 ≡ false
    → slice input 0 (length input - 4) ≡ ok body
    → slice input (length input - 4) (length input) ≡ ok sum
    → nat_beq (of_big_endian sum) (crc body) ≡ true
    → index input 0 ≡ ok 1
    → index input 1 ≡ ok src_len
    → nat_beq src_len 0 ≡ false
    → unmarshal_string src_len (drop 2 input) ≡ ok src
    → ltb (length input - 4) (2 + src_len + 11) ≡ false
    → index input (2 + src_len) ≡ ok kind_b
    → kind_of_byte kind_b ≡ ok kind
    → slice input (2 + src_len + 1) (2 + src_len + 9) ≡ ok period
    → index input (2 + src_len + 9) ≡ ok target_len
    → unmarshal_string target_len (drop (2 + src_len + 10) input) ≡ ok target
    → slice input (2 + src_len + 11 + target_len) (length input - 4) ≡ ok rest
    → index input (2 + src_len + 10 + target_len) ≡ ok count
    → unmarshal_events count rest ≡ ok events
    → unmarshal crc input
      ≡ ok (record {
        version = 1;
        kind = kind;
        src = src;
        period = of_big_endian period;
        target = target;
        events = events;
      })
unfolding unmarshal
unmarshal_steps crc input body sum src_len kind_b target_len count kind src target period rest
      events h1 h2 h3 h4 h5 h6 h7 h8 h9 h10 h11 h12 h13 h14 h15 h16 h17 =
    rw (h1, h2, h3, h4, h5, h6, h7, h8, h9, h10, h11, h12, h13, h14, h15, h16, h17)

module _ (n k t c : ℕ) (src target : Str) (P E C : List ℕ) (hp : length P ≡ 8)
    (hc : length C ≡ 4) where
  abbrev pub wire : List ℕ
  wire = 1 ∷ n ∷ (src ++ k ∷ (P ++ t ∷ (target ++ c ∷ (E ++ C))))

  abbrev pub body : List ℕ
  body = 1 ∷ n ∷ (src ++ k ∷ (P ++ t ∷ (target ++ c ∷ E)))

  -- The prefixes of the datagram up to each field.
  abbrev pub to_kind : List ℕ
  to_kind = 1 ∷ n ∷ src

  abbrev pub to_period : List ℕ
  to_period = to_kind ++ k ∷ []

  abbrev pub to_target_len : List ℕ
  to_target_len = to_period ++ P

  abbrev pub to_target : List ℕ
  to_target = to_target_len ++ t ∷ []

  abbrev to_count : List ℕ
  to_count = to_target ++ target

  abbrev to_events : List ℕ
  to_events = to_count ++ c ∷ []

  pub wire-body : wire ≡ body ++ C
  wire-body = simp append_assoc

  pub wire_period : wire ≡ to_period ++ (P ++ t ∷ (target ++ c ∷ (E ++ C)))
  wire_period = simp append_assoc

  pub wire_target_len : wire ≡ to_target_len ++ t ∷ (target ++ c ∷ (E ++ C))
  wire_target_len = simp append_assoc

  pub wire_target : wire ≡ to_target ++ (target ++ c ∷ (E ++ C))
  wire_target = simp append_assoc

  wire_count : wire ≡ to_count ++ c ∷ (E ++ C)
  wire_count = simp append_assoc

  wire_events : wire ≡ to_events ++ (E ++ C)
  wire_events = simp append_assoc

  pub length-to_period : length to_period ≡ 3 + length src
  length-to_period = omega (arith, length-append src (k ∷ []))

  pub length-to_target_len : length to_target_len ≡ 11 + length src
  length-to_target_len = omega (arith, length-append to_period P, length-to_period)

  pub length-to_target : length to_target ≡ 12 + length src
  length-to_target = omega (arith, length-append to_target_len (t ∷ []), length-to_target_len)

  length-to_count : length to_count ≡ 12 + length src + length target
  length-to_count = omega (arith, length-append to_target target, length-to_target)

  length-to_events : length to_events ≡ 13 + length src + length target
  length-to_events = omega (arith, length-append to_count (c ∷ []), length-to_count)

  pub length-wire : length wire ≡ 17 + length src + length target + length E
  length-wire = omega (
    arith,
    ap length wire_events,
    length-append to_events (E ++ C),
    length-append E C,
    length-to_events,
  )

  pub length-body : length body ≡ 13 + length src + length target + length E
  length-body = omega (arith, ap length wire-body, length-append body C, length-wire)

  pub slice_end : slice (body ++ C) (length wire - 4) (length wire) ≡ ok C
  slice_end =
      subst (λ w. slice (body ++ w) (length wire - 4) (length wire) ≡ ok C) (append-nil C)
        (slice-append (length wire - 4) (length wire) body C []
          (omega (arith, length-wire, length-body)) (omega (arith, length-wire, length-body)))

  -- A datagram of this shape decodes to its fields.
  wire_decodes :
      (crc : List ℕ → ℕ) (kind : MessageKind) (es : List Event)
      → n ≡ length src
      → 1 ≤ n
      → n ≤ 47
      → t ≡ length target
      → t ≤ 47
      → kind_of_byte k ≡ ok kind
      → of_big_endian C ≡ crc body
      → unmarshal_events c E ≡ ok es
      → unmarshal crc wire
        ≡ ok (record {
          version = 1;
          kind = kind;
          src = src;
          period = of_big_endian P;
          target = target;
          events = es;
        })
  wire_decodes crc kind es hn n1 n47 ht t47 hk hsum he =
      unmarshal_steps crc wire body C n k t c kind src target P E es (ground (arith, length-wire))
        (subst (λ w. slice w 0 (length wire - 4) ≡ ok body) (sym wire-body)
          (slice-append 0 (length wire - 4) [] body C refl
            (omega (arith, length-wire, length-body))))
        (subst (λ w. slice w (length wire - 4) (length wire) ≡ ok C) (sym wire-body) slice_end)
        ((nat_beq_iff (of_big_endian C) (crc body)).1 hsum) refl refl (ground arith)
        (unmarshal_string-append n src (k ∷ (P ++ t ∷ (target ++ c ∷ (E ++ C)))) hn n47)
        (ground (arith, length-wire))
        (index-append (2 + n) to_kind k (P ++ t ∷ (target ++ c ∷ (E ++ C))) (omega arith)) hk
        (subst (λ w. slice w (2 + n + 1) (2 + n + 9) ≡ ok P) (sym wire_period)
          (slice-append (2 + n + 1) (2 + n + 9) to_period P (t ∷ (target ++ c ∷ (E ++ C)))
            (omega (arith, length-to_period)) (omega (arith, length-to_period))))
        (subst (λ w. index w (2 + n + 9) ≡ ok t) (sym wire_target_len)
          (index-append (2 + n + 9) to_target_len t (target ++ c ∷ (E ++ C))
            (omega (arith, length-to_target_len))))
        (subst (λ w. unmarshal_string t (drop (2 + n + 10) w) ≡ ok target) (sym wire_target)
          (rw
            (drop-append (2 + n + 10) 0 to_target (target ++ c ∷ (E ++ C))
              (omega (arith, length-to_target)))
            (unmarshal_string-append t target (c ∷ (E ++ C)) ht t47)))
        (subst (λ w. slice w (2 + n + 11 + t) (length wire - 4) ≡ ok E) (sym wire_events)
          (slice-append (2 + n + 11 + t) (length wire - 4) to_events E C
            (omega (arith, length-to_events)) (omega (arith, length-to_events, length-wire))))
        (subst (λ w. index w (2 + n + 10 + t) ≡ ok c) (sym wire_count)
          (index-append (2 + n + 10 + t) to_count c (E ++ C) (omega (arith, length-to_count))))
        he

-- What a member may send: a source, addresses of at most 47 bytes, at most 255 events, and a period
-- that is a uint64.
pub record IsSendable (m : Message) : Type 0 where
  pub version : m.version ≡ 1
  pub src_some : 1 ≤ length m.src
  pub src_fits : length m.src ≤ 47
  pub target_fits : length m.target ≤ 47
  pub events_fit : AllFit m.events
  pub events_few : length m.events ≤ 255
  pub period : m.period < u64

fields-eq :
    (m : Message) (p : ℕ)
    → m.version ≡ 1
    → p ≡ m.period
    → record {
      version = 1;
      kind = m.kind;
      src = m.src;
      period = p;
      target = m.target;
      events = m.events;
    }
      ≡ m
fields-eq m p h k = ground arith

-- Decoding an encoded message that a member may send gives the message back, for every 32-bit
-- checksum function.
pub unmarshal-marshal :
    (crc : List ℕ → ℕ) (m : Message)
    → ((input : List ℕ) → crc input < 4294967296)
    → IsSendable m
    → unmarshal crc (marshal crc m) ≡ ok m
unfolding marshal
unmarshal-marshal crc m h v =
    let n : ℕ = length m.src % 256 in
    let t : ℕ = length m.target % 256 in
    let c : ℕ = length m.events % 256 in
    let k : ℕ = kind_byte m.kind in
    let P : List ℕ = big_endian 8 m.period in
    let E : List ℕ = marshal_events m.events in
    let C : List ℕ = big_endian 4 (crc (marshal_body m)) in
    let hp = length-big_endian 8 m.period in
    let hc = length-big_endian 4 (crc (marshal_body m)) in
    let he : unmarshal_events c E ≡ ok m.events =
      let few : c ≡ length m.events = omega (arith, v.events_few) in
      subst (λ j. unmarshal_events j E ≡ ok m.events) (sym few)
        (unmarshal_events-marshal_events m.events v.events_fit) in
    subst (λ w. unmarshal crc w ≡ ok m) (wire-body n k t c m.src m.target P E C hp hc)
      (wire_decodes n k t c m.src m.target P E C hp hc crc m.kind m.events (omega arith)
          (omega arith) (omega arith) (omega arith) (omega arith) (kind_of_byte-kind_byte m.kind)
          (of_big_endian-big_endian 4 (crc (marshal_body m)) (h (marshal_body m))) he
        ∙ ap ok (
            fields-eq m (of_big_endian P) v.version (of_big_endian-big_endian 8 m.period v.period)))
