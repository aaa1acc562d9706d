-- ===== src/Crdt/LwwRegister/Order.antt =====
-- The stamps (timestamp, writer) of register entries are totally ordered, and `Merge` keeps the
-- larger.
use commute.Prelude.{
  ℕ, ◌<◌, Str, ◌≡◌, true, false, arith, str_ltb_irrefl, str_ltb_trans, str_ltb_total,
  not-str_ltb_trans, not-str_ltb_nil, Bool-ext, and-true, ◌&&◌, ◌≤◌, Bool-cases, inl, inr,
}
use commute.Crdt.Replicated.{Replicated}
use commute.Crdt.LwwRegister.{
  LwwEntry, LwwRegister, after, new, value, set, merge, is_less_or_equal,
}

pub after_irrefl : (e : LwwEntry) → after e e ≡ false
unfolding after
after_irrefl e = ground (arith, str_ltb_irrefl e.writer_id)

-- `after` is a strict order, and two entries neither of which is after the other have one stamp.
pub after_trans : (d e f : LwwEntry) → after d e ≡ true → after e f ≡ true → after d f ≡ true
unfolding after
after_trans d e f h k = ground (arith, str_ltb_trans f.writer_id e.writer_id d.writer_id)

pub record SameStamp (d e : LwwEntry) : Type 0 where
  pub timestamp : d.timestamp ≡ e.timestamp
  pub writer_id : d.writer_id ≡ e.writer_id

pub after_total : (d e : LwwEntry) → after d e ≡ false → after e d ≡ false → SameStamp d e
unfolding after
after_total d e h k = record {
  timestamp = ground arith;
  writer_id = ground (arith, str_ltb_total d.writer_id e.writer_id);
}

pub after_asym : (d e : LwwEntry) → after d e ≡ true → after e d ≡ false
after_asym d e h = elim (Bool-cases (after e d)) [
  | inl k ↦ ground (arith, after_trans d e d h k, after_irrefl d)
  | inr k ↦ k
]

-- Not being after is transitive: the order of stamps is total.
pub not-after_trans : (d e f : LwwEntry) → after d e ≡ false → after e f ≡ false → after d f ≡ false
unfolding after
not-after_trans d e f h k = ground (arith, not-str_ltb_trans d.writer_id e.writer_id f.writer_id)

-- The stamp of `a` is not after that of `b`.
abbrev pub Below : LwwRegister → LwwRegister → Type 0
Below a b = after a.entry b.entry ≡ false

pub merge-Below_left : (a b : LwwRegister) → Below a (merge a b)
unfolding merge
merge-Below_left a b = elim (Bool-cases (after b.entry a.entry)) [
  | inl h ↦ rw h (after_asym b.entry a.entry h)
  | inr h ↦ rw h (after_irrefl a.entry)
]

pub merge-Below_right : (a b : LwwRegister) → Below b (merge a b)
unfolding merge
merge-Below_right a b = elim (Bool-cases (after b.entry a.entry)) [
  | inl h ↦ rw h (after_irrefl b.entry)
  | inr h ↦ rw h h
]

pub merge-Below_least : (a b c : LwwRegister) → Below a c → Below b c → Below (merge a b) c
unfolding merge
merge-Below_least a b c h k = ground arith

pub Below-of_test : (a b : LwwRegister) → is_less_or_equal a b ≡ true → Below a b
unfolding is_less_or_equal
Below-of_test a b h = ground arith

pub new-Below : (node : Str) (a : LwwRegister) → Below (new node) a
unfolding new after
new-Below node a = ground (arith, not-str_ltb_nil a.entry.writer_id)

-- Merging two replicas of a register in either order leaves the same entry, if writes with one
-- stamp are one write.
pub merge_comm :
    (a b : LwwRegister)
    → (SameStamp a.entry b.entry → a.entry ≡ b.entry)
    → (merge a b).entry ≡ (merge b a).entry
unfolding merge
merge_comm a b unique = elim (Bool-cases (after b.entry a.entry)) [
  | inl h ↦ rw (h, after_asym b.entry a.entry h)
  | inr h ↦ elim (Bool-cases (after a.entry b.entry)) [
    | inl k ↦ rw (h, k)
    | inr k ↦ rw (h, k) (unique (after_total a.entry b.entry k h))
  ]
]

-- Merging three replicas of a register leaves the same entry however the merges are grouped.
merge_assoc : (a b c : LwwRegister) → (merge (merge a b) c).entry ≡ (merge a (merge b c)).entry
unfolding merge
merge_assoc a b c =
    ground (arith, after_trans c.entry b.entry a.entry, not-after_trans c.entry b.entry a.entry)

-- A write at a clock reading after the register's timestamp is read back.
pub value-merge-set :
    (lww : LwwRegister) (now : ℕ) (v : Str)
    → lww.entry.timestamp < now
    → value (merge lww (set lww now v)) ≡ v
unfolding merge set value after
value-merge-set lww now v h = ground arith

-- A write that is not after the register's timestamp, by the node that wrote the entry, is dropped:
-- the merge of its delta leaves the register as it is.
pub merge-set_stale :
    (lww : LwwRegister) (now : ℕ) (v : Str)
    → now ≤ lww.entry.timestamp
    → lww.entry.writer_id ≡ lww.node_id
    → merge lww (set lww now v) ≡ lww
unfolding merge set after
merge-set_stale lww now v h k = ground (arith, str_ltb_irrefl lww.node_id)

-- A merge is at most a register in the order of stamps exactly when both of its arguments are.
pub is_less_or_equal-merge :
    (a b c : LwwRegister)
    → is_less_or_equal (merge a b) c ≡ (is_less_or_equal a c && is_less_or_equal b c)
unfolding is_less_or_equal
is_less_or_equal-merge a b c =
    Bool-ext _ _
      (λ h.
        let m : after (merge a b).entry c.entry ≡ false = ground arith in
        and-true (is_less_or_equal a c) (is_less_or_equal b c)
          (rw (not-after_trans a.entry _ c.entry (merge-Below_left a b) m))
          (rw (not-after_trans b.entry _ c.entry (merge-Below_right a b) m)))
      (λ h. rw (merge-Below_least a b c (ground arith) (ground arith)))

abbrev pub registers : Replicated LwwRegister
registers = record {
  new = new;
  merge = merge;
  is_less_or_equal = is_less_or_equal;
  IsValid = λ a. Unit;
  Below = Below;
  new-IsValid = λ node. tt;
  merge-IsValid = λ a b v w. tt;
  below_of_test = λ a b v w. Below-of_test a b;
  Below-refl = λ a. after_irrefl a.entry;
  Below-trans = λ a b c. not-after_trans a.entry b.entry c.entry;
  new-Below = λ node a v. new-Below node a;
  merge-Below_left = λ a b v w. merge-Below_left a b;
  merge-Below_right = λ a b v w. merge-Below_right a b;
  merge-Below_least = λ a b c v w. merge-Below_least a b c;
}
