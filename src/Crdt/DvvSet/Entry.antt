-- ===== src/Crdt/DvvSet/Entry.antt =====
-- The siblings of an entry by their dots.
use commute.Prelude.{
  ℕ, zero, suc, ◌+◌, ◌-◌, ◌%◌, ◌<◌, ◌≤◌, min, Option, none, some, List, [], ◌∷◌, true, false, ◌≡◌,
  ◌⊎◌, refl, ◌∙◌, arith, if◌then◌else◌, ltb, leb, is_some, length, length-take, get_elem?, take,
  u64, i64, inl, inr, Bool-cases,
}
use commute.Crdt.DvvSet.{DvvEntry, prefix, with_values, sync_entry, IsEntry}

module _ {T : Type 0} where
  -- The sibling with the dot (id, c): the head of the list has the dot (id, counter).
  abbrev pub sibling : DvvEntry T → ℕ → Option T
  sibling e c = if leb c e.counter then get_elem? e.values (e.counter - c) else none

  get_elem?-take :
      (n : ℕ) (l : List T) (i : ℕ)
      → get_elem? (take n l) i ≡ (if ltb i n then get_elem? l i else none)
  get_elem?-take zero l i = ground arith
  get_elem?-take (suc n) [] i = ground arith
  get_elem?-take (suc n) (x ∷ l) zero = ground arith
  get_elem?-take (suc n) (x ∷ l) (suc i) = ground (arith, get_elem?-take n l i)

  pub prefix_lem : (n : ℕ) (l : List T) → n < i64 → prefix n l ≡ some (take (min n (length l)) l)
  unfolding prefix
  prefix_lem n l h = let m : n % u64 ≡ n = omega arith in rw m (ground arith)

  -- What `discard` leaves of an entry that a version vector knows up to `c`.
  abbrev pub kept : DvvEntry T → ℕ → DvvEntry T
  kept e c = with_values e (take (min (e.counter - c) (length e.values)) e.values)

  -- What `Sync` makes of two entries of one id.
  abbrev pub synced : DvvEntry T → DvvEntry T → DvvEntry T
  synced e o =
      if leb o.counter e.counter
      then with_values e
          (take (min (e.counter - o.counter + length o.values) (length e.values)) e.values)
      else with_values o
          (take (min (o.counter - e.counter + length e.values) (length o.values)) o.values)

  pub sync_entry-synced :
      (e o : DvvEntry T) → IsEntry e → IsEntry o → sync_entry e o ≡ some (synced e o)
  unfolding sync_entry
  sync_entry-synced e o v w = elim (Bool-cases (leb o.counter e.counter)) [
    | inl q ↦ rw (q, prefix_lem (e.counter - o.counter + length o.values) e.values (ground arith))
    | inr q ↦ rw (q, prefix_lem (o.counter - e.counter + length e.values) o.values (ground arith))
  ]

  pub synced-IsEntry : (e o : DvvEntry T) → IsEntry e → IsEntry o → IsEntry (synced e o)
  synced-IsEntry e o v w = elim (Bool-cases (leb o.counter e.counter)) [
    | inl q ↦ rw q (record {
      few = omega (
        arith,
        length-take (min (e.counter - o.counter + length o.values) (length e.values)) e.values,
      );
      small = v.small;
    })
    | inr q ↦ rw q (record {
      few = omega (
        arith,
        length-take (min (o.counter - e.counter + length e.values) (length o.values)) o.values,
      );
      small = w.small;
    })
  ]

  -- The siblings that neither side has made obsolete: those on both sides, and those on one side
  -- whose dot the other side's counter does not reach.
  abbrev pub survives : ℕ → ℕ → ℕ → Option T → Option T → Option T
  survives n m c none none = none
  survives n m c (some x) (some y) = some x
  survives n m c (some x) none = if ltb m c then some x else none
  survives n m c none (some y) = if ltb n c then some y else none

  -- Where the siblings of an entry stand.
  abbrev pub Placed : DvvEntry T → ℕ → Option T → Type 0
  Placed e c none = (e.counter < c) ⊎ (c + length e.values ≤ e.counter)
  Placed e c (some x) = (c ≤ e.counter) × (e.counter < c + length e.values)

  get_elem?_placed :
      (l : List T) (i : ℕ) (o : Option T)
      → get_elem? l i ≡ o
      → (if is_some o then i < length l else length l ≤ i)
  get_elem?_placed [] i none h = omega arith
  get_elem?_placed [] i (some x) h = cc
  get_elem?_placed (x ∷ l) zero none h = cc
  get_elem?_placed (x ∷ l) zero (some y) h = omega arith
  get_elem?_placed (x ∷ l) (suc i) none h = omega (arith, get_elem?_placed l i none h)
  get_elem?_placed (x ∷ l) (suc i) (some y) h = omega (arith, get_elem?_placed l i (some y) h)

  pub placed : (e : DvvEntry T) (c : ℕ) (o : Option T) → sibling e c ≡ o → Placed e c o
  placed e c none h = ground (arith, get_elem?_placed e.values (e.counter - c) none)
  placed e c (some x) h = ground (arith, get_elem?_placed e.values (e.counter - c) (some x))

  -- A shortened list has the siblings with the later dots.
  pub sibling-take :
      (e : DvvEntry T) (k c : ℕ)
      → sibling (with_values e (take k e.values)) c
        ≡ (if ltb e.counter (c + k) then sibling e c else none)
  sibling-take e k c = rw (get_elem?-take k e.values (e.counter - c)) (ground arith)

  abbrev left_length : DvvEntry T → DvvEntry T → ℕ
  left_length e o = min (e.counter - o.counter + length o.values) (length e.values)

  left_survives :
      (e o : DvvEntry T) (c : ℕ) (a b : Option T)
      → leb o.counter e.counter ≡ true
      → Placed e c a
      → Placed o c b
      → (if ltb e.counter (c + left_length e o) then a else none)
        ≡ survives e.counter o.counter c a b
  left_survives e o c none none q p r = ground arith
  left_survives e o c none (some y) q p r = ground arith
  left_survives e o c (some x) none q p r = ground arith
  left_survives e o c (some x) (some y) q p r = ground arith

  right_survives :
      (e o : DvvEntry T) (c : ℕ) (a b : Option T)
      → leb o.counter e.counter ≡ false
      → Placed e c a
      → Placed o c b
      → ((x y : T) → a ≡ some x → b ≡ some y → x ≡ y)
      → (if ltb o.counter (c + left_length o e) then b else none)
        ≡ survives e.counter o.counter c a b
  right_survives e o c none none q p r same = ground arith
  right_survives e o c none (some y) q p r same = ground arith
  right_survives e o c (some x) none q p r same = ground arith
  right_survives e o c (some x) (some y) q p r same = ground (arith, same x y refl refl)

  -- `Sync` of two entries of one id that agree at a dot keeps the sibling there unless one side has
  -- made it obsolete.
  pub sibling-synced :
      (e o : DvvEntry T) (c : ℕ)
      → ((x y : T) → sibling e c ≡ some x → sibling o c ≡ some y → x ≡ y)
      → sibling (synced e o) c ≡ survives e.counter o.counter c (sibling e c) (sibling o c)
  sibling-synced e o c agree =
      let a = placed e c (sibling e c) refl in
      let b = placed o c (sibling o c) refl in
      elim (Bool-cases (leb o.counter e.counter)) [
        | inl q ↦ rw q (
            sibling-take e (left_length e o) c
            ∙ left_survives e o c (sibling e c) (sibling o c) q a b)
        | inr q ↦ rw q (
            sibling-take o (left_length o e) c
            ∙ right_survives e o c (sibling e c) (sibling o c) q a b agree)
      ]
