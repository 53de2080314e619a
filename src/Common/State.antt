-- ===== src/Common/State.antt =====
-- Methods that change the state behind their receiver and do not panic: functions of the state.
use elrond_eth_bridge.Common.Errors.{Result, ok, err}

abbrev pub State : Type 0 → Type 0 → Type 0
State S A = S → A × S

module _ {S : Type 0} where
  abbrev pub give : {A : Type 0} → A → State S A
  give a s = (a, s)

  infixl 5 ◌>>=◌ ◌>>◌
  abbrev pub ◌>>=◌ : {A B : Type 0} → State S A → (A → State S B) → State S B
  ◌>>=◌ m f s = f (m s).0 (m s).1

  abbrev pub ◌>>◌ : {A B : Type 0} → State S A → State S B → State S B
  m >> k = m >>= λ _. k

  -- `if err != nil { return …, err }`, and the rest of the method.
  abbrev pub or_fail : {A B : Type 0} → Result A → (A → State S (Result B)) → State S (Result B)
  or_fail (err e) k = give (err e)
  or_fail (ok a) k = k a
