-- ===== src/Crdt/LwwRegister.antt =====
-- internal/crdt/crdt.go: `LWWRegister`. A `time.Time` is its instant, in nanoseconds since the zero
-- time; the register's clock is read by its caller, which passes the reading to `set`.
pub mod Order
use commute.Prelude.{ℕ, Str, [], Bool, not, ◌&&◌, ◌||◌, ltb, nat_beq, str_ltb, if◌then◌else◌}

-- lwwEntry
pub record LwwEntry : Type 0 where
  pub writer_id : Str
  pub timestamp : ℕ
  pub value : Str

pub record LwwRegister : Type 0 where
  pub node_id : Str
  pub entry : LwwEntry

-- After: the later timestamp, then the larger writer.
unfoldable pub after : LwwEntry → LwwEntry → Bool
after e other =
    ltb other.timestamp e.timestamp
    || (nat_beq e.timestamp other.timestamp && str_ltb other.writer_id e.writer_id)

-- NewLWWRegister: the entry is Go's zero value.
unfoldable pub new : Str → LwwRegister
new node = record { node_id = node; entry = record { writer_id = []; timestamp = 0; value = [] } }

-- Value
unfoldable pub value : LwwRegister → Str
value lww = lww.entry.value

-- Set, at the clock reading `now`: the delta has no owner.
unfoldable pub set : LwwRegister → ℕ → Str → LwwRegister
set lww now v = record {
  node_id = [];
  entry = record { writer_id = lww.node_id; timestamp = now; value = v };
}

-- Merge
unfoldable pub merge : LwwRegister → LwwRegister → LwwRegister
merge lww other = if after other.entry lww.entry then record lww { entry = other.entry } else lww

-- IsLessOrEqual
unfoldable pub is_less_or_equal : LwwRegister → LwwRegister → Bool
is_less_or_equal lww other = not (after lww.entry other.entry)
