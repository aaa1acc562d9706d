-- ===== src/Crdt/Replicated.antt =====
-- What the store (internal/server/store.go) relies on in a replicated type: a constructor, `Merge`
-- and `IsLessOrEqual`, with the laws of a least upper bound in the order of the type's history.
use commute.Prelude.{Str, Bool, true, ◌≡◌}

pub record Replicated (S : Type 0) : Type 1 where
  pub new : Str → S
  pub merge : S → S → S
  pub is_less_or_equal : S → S → Bool
  -- What holds of every value that the program builds.
  pub IsValid : S → Type 0
  -- The history of the first value is part of the history of the second.
  pub Below : S → S → Type 0
  pub new-IsValid : (node : Str) → IsValid (new node)
  pub merge-IsValid : (a b : S) → IsValid a → IsValid b → IsValid (merge a b)
  pub below_of_test : (a b : S) → IsValid a → IsValid b → is_less_or_equal a b ≡ true → Below a b
  pub Below-refl : (a : S) → Below a a
  pub Below-trans : (a b c : S) → Below a b → Below b c → Below a c
  pub new-Below : (node : Str) (a : S) → IsValid a → Below (new node) a
  pub merge-Below_left : (a b : S) → IsValid a → IsValid b → Below a (merge a b)
  pub merge-Below_right : (a b : S) → IsValid a → IsValid b → Below b (merge a b)
  pub merge-Below_least :
      (a b c : S) → IsValid a → IsValid b → Below a c → Below b c → Below (merge a b) c
