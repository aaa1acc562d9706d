-- ===== src/Swim/Message/Bounds.antt =====
-- Sizes of encoded messages, and a datagram that the decoder does not survive.
use commute.Prelude.{
  ℕ, ◌+◌, ◌-◌, ◌*◌, ◌%◌, ◌≤◌, ◌<◌, Str, List, [], ◌∷◌, ◌++◌, true, false, ◌≡◌, refl, sym, subst,
  arith, ltb, leb, nat_beq, nat_beq_iff, length, length-append, take, drop,
}
use commute.Swim.Types.{Event}
use commute.Swim.Message.Bytes.{
  big_endian, of_big_endian, of_big_endian-big_endian, length-big_endian, drop-append,
}
use commute.Swim.Message.{
  MessageKind, Message, ok, panic, index, slice, kind_of_byte, kind_byte, marshal_events,
  marshal_body, marshal, unmarshal_string, unmarshal, max_message_size, udp_payload,
  max_piggyback_events,
}
use commute.Swim.Message.RoundTrip.{
  AllFit, wire, body, wire-body, wire_target_len, wire_target, wire_period, to_kind, to_period,
  to_target_len, to_target, length-to_period, length-to_target_len, length-to_target, length-wire,
  length-body, slice_end, slice-append, index-append, unmarshal_string-append,
  kind_of_byte-kind_byte,
}

length-marshal_events : (es : List Event) → AllFit es → length (marshal_events es) ≤ 49 * length es
unfolding marshal_events
length-marshal_events [] h = omega arith
length-marshal_events (e ∷ es) (h, hs) =
    omega (arith, length-append e.node (marshal_events es), length-marshal_events es hs)

length-marshal :
    (crc : List ℕ → ℕ) (m : Message)
    → length (marshal crc m)
      ≡ 17 + length m.src + length m.target + length (marshal_events m.events)
unfolding marshal
length-marshal crc m =
    let n : ℕ = length m.src % 256 in
    let t : ℕ = length m.target % 256 in
    let c : ℕ = length m.events % 256 in
    let P : List ℕ = big_endian 8 m.period in
    let E : List ℕ = marshal_events m.events in
    let C : List ℕ = big_endian 4 (crc (marshal_body m)) in
    let hp = length-big_endian 8 m.period in
    let hc = length-big_endian 4 (crc (marshal_body m)) in
    subst (λ w. length w ≡ 17 + length m.src + length m.target + length E)
      (wire-body n (kind_byte m.kind) t c m.src m.target P E C hp hc)
      (length-wire n (kind_byte m.kind) t c m.src m.target P E C hp hc)

-- A message whose addresses have at most 47 bytes and that carries at most `maxPiggybackEvents`
-- events fits the receive buffer of `maxMessageSize` bytes, which fits a UDP payload.
pub marshal_fits :
    (crc : List ℕ → ℕ) (m : Message)
    → length m.src ≤ 47
    → length m.target ≤ 47
    → AllFit m.events
    → length m.events ≤ max_piggyback_events
    → (length (marshal crc m) ≤ max_message_size) × (max_message_size ≤ udp_payload)
marshal_fits crc m hs ht hf he =
    (omega (arith, length-marshal crc m, length-marshal_events m.events hf), omega arith)

unmarshal_string_some :
    (n : ℕ) (input : List ℕ)
    → 1 ≤ n
    → n ≤ length input
    → n ≤ 47
    → unmarshal_string n input ≡ ok (take n input)
unfolding unmarshal_string
unmarshal_string_some n input h k b = ground arith

panic_steps :
    (crc : List ℕ → ℕ) (input body sum : List ℕ) (src_len kind_b target_len : ℕ)
    (kind : MessageKind) (src target : Str) (period : List ℕ)
    → ltb (length input) 17 ≡ false
    → slice input 0 (length input - 4) ≡ ok body
    → slice input (length input - 4) (length input) ≡ ok sum
    → nat_beq (of_big_endian sum) (crc body) ≡ true
    → index input 0 ≡ ok 1
    → index input 1 ≡ ok src_len
    → nat_beq src_len 0 ≡ false
    → unmarshal_string src_len (drop 2 input) ≡ ok src
    → ltb (length input - 4) (2 + src_len + 11) ≡ false
    → index input (2 + src_len) ≡ ok kind_b
    → kind_of_byte kind_b ≡ ok kind
    → slice input (2 + src_len + 1) (2 + src_len + 9) ≡ ok period
    → index input (2 + src_len + 9) ≡ ok target_len
    → unmarshal_string target_len (drop (2 + src_len + 10) input) ≡ ok target
    → leb (2 + src_len + 11 + target_len) (length input - 4) ≡ false
    → unmarshal crc input ≡ panic
unfolding unmarshal
panic_steps crc input body sum src_len kind_b target_len kind src target period h1 h2 h3 h4 h5 h6 h7
      h8 h9 h10 h11 h12 h13 h14 h15 =
    rw (h1, h2, h3, h4, h5, h6, h7, h8, h9, h10, h11, h12, h13, h14, h15)

-- A datagram with a source, a known kind and a correct checksum, that claims a target of one to five
-- bytes and ends, but for its event count and its checksum, with that claim: the target is read out
-- of the count and the checksum, and the slice of the events begins behind its end.
pub unmarshal_panics :
    (crc : List ℕ → ℕ) (kind : MessageKind) (src : Str) (period t c : ℕ)
    → ((input : List ℕ) → crc input < 4294967296)
    → 1 ≤ length src
    → length src ≤ 47
    → 1 ≤ t
    → t ≤ 5
    → (forged : List ℕ) × (forged
        ≡ 1 ∷ length src ∷ (src ++ kind_byte kind ∷ (big_endian 8 period ++ t ∷ c ∷ [])))
      × (unmarshal crc (forged ++ big_endian 4 (crc forged)) ≡ panic)
unmarshal_panics crc kind src period t c h s1 s47 t1 t5 =
    let k : ℕ = kind_byte kind in
    let n : ℕ = length src in
    let P : List ℕ = big_endian 8 period in
    let forged : List ℕ = 1 ∷ n ∷ (src ++ k ∷ (P ++ t ∷ c ∷ [])) in
    let C : List ℕ = big_endian 4 (crc forged) in
    let hp = length-big_endian 8 period in
    let hc = length-big_endian 4 (crc forged) in
    let w : List ℕ = wire n k t c src [] P [] C hp hc in
    let size : length w ≡ 17 + n = omega (arith, length-wire n k t c src [] P [] C hp hc) in
    let wb = wire-body n k t c src [] P [] C hp hc in
    let lb = length-body n k t c src [] P [] C hp hc in
    let ltl = length-to_target_len n k t c src [] P [] C hp hc in
    let lt = length-to_target n k t c src [] P [] C hp hc in
    let lp = length-to_period n k t c src [] P [] C hp hc in
    (
      forged,
      refl,
      subst (λ x. unmarshal crc x ≡ panic) wb
          (panic_steps crc w forged C n k t kind src (take t (c ∷ C)) P (ground arith)
            (subst (λ x. slice x 0 (length w - 4) ≡ ok forged) (sym wb)
              (slice-append 0 (length w - 4) [] forged C refl (omega arith)))
            (subst (λ x. slice x (length w - 4) (length w) ≡ ok C) (sym wb)
              (slice_end n k t c src [] P [] C hp hc))
            ((nat_beq_iff (of_big_endian C) (crc forged)).1
              (of_big_endian-big_endian 4 (crc forged) (h forged)))
            refl refl (ground arith)
            (unmarshal_string-append n src (k ∷ (P ++ t ∷ (c ∷ C))) refl s47) (ground arith)
            (index-append (2 + n) (to_kind n k t c src [] P [] C hp hc) k (P ++ t ∷ (c ∷ C))
              (omega arith))
            (kind_of_byte-kind_byte kind)
            (subst (λ x. slice x (2 + n + 1) (2 + n + 9) ≡ ok P)
              (sym (wire_period n k t c src [] P [] C hp hc))
              (slice-append (2 + n + 1) (2 + n + 9) (to_period n k t c src [] P [] C hp hc) P
                (t ∷ (c ∷ C)) (omega arith) (omega arith)))
            (subst (λ x. index x (2 + n + 9) ≡ ok t)
              (sym (wire_target_len n k t c src [] P [] C hp hc))
              (index-append (2 + n + 9) (to_target_len n k t c src [] P [] C hp hc) t (c ∷ C)
                (omega arith)))
            (subst (λ x. unmarshal_string t (drop (2 + n + 10) x) ≡ ok (take t (c ∷ C)))
              (sym (wire_target n k t c src [] P [] C hp hc))
              (rw
                (drop-append (2 + n + 10) 0 (to_target n k t c src [] P [] C hp hc) (c ∷ C)
                  (omega arith))
                (unmarshal_string_some t (c ∷ C) t1 (omega arith) (omega arith))))
            (ground arith)),
    )
