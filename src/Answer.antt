-- ===== src/Answer.antt =====
-- What a call may answer: a value, or an exception that it raises.
use fairlane.Retry.{Exception}

pub data Answer (A : Type 0) : Type 0 where
  ok : A → Answer A
  raise : Exception → Answer A

infixl 5 ◌>>=◌
abbrev pub ◌>>=◌ : {A B : Type 0} → Answer A → (A → Answer B) → Answer B
ok a >>= f = f a
raise e >>= f = raise e
