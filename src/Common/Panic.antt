-- ===== src/Common/Panic.antt =====
-- Methods that change the state behind their receiver and may panic: `none` is a panic.
use mathlib.Core.Option.{Option, none, some}
use elrond_eth_bridge.Common.Errors.{Result, ok, err}

abbrev pub Run : Type 0 → Type 0 → Type 0
Run S A = S → Option (A × S)

module _ {S : Type 0} where
  abbrev pub pure : {A : Type 0} → A → Run S A
  pure a s = some (a, s)

  abbrev pub panic : {A : Type 0} → Run S A
  panic s = none

  infixl 5 ◌>>=◌ ◌>>◌
  abbrev pub ◌>>=◌ : {A B : Type 0} → Run S A → (A → Run S B) → Run S B
  ◌>>=◌ m f s = elim (m s) [ none ↦ none | some (a, s') ↦ f a s' ]

  abbrev pub ◌>>◌ : {A B : Type 0} → Run S A → Run S B → Run S B
  m >> k = m >>= λ _. k

  -- `if err != nil { return …, err }`, and the rest of the method.
  abbrev pub or_return : {A B : Type 0} → Result A → (A → Run S (Result B)) → Run S (Result B)
  or_return (err e) k = pure (err e)
  or_return (ok a) k = k a

  -- A value where there is one; a nil pointer panics.
  abbrev pub or_panic : {A B : Type 0} → Option A → (A → Run S B) → Run S B
  or_panic none k = panic
  or_panic (some a) k = k a

-- What holds of the outcome of a call that must not panic.
abbrev pub Returns : {S A : Type 0} → (A → S → Type 0) → Option (A × S) → Type 0
Returns P none = ⊥
Returns P (some (a, s)) = P a s

pub Returns-mono :
    {S A : Type 0} (P Q : A → S → Type 0) (o : Option (A × S))
    → Returns P o
    → ((a : A) (t : S) → P a t → Returns Q (some (a, t)))
    → Returns Q o
Returns-mono P Q none h k = absurd h
Returns-mono P Q (some (a, t)) h k = k a t h

pub Returns->>= :
    {S A B : Type 0} (P : A → S → Type 0) (Q : B → S → Type 0) (m : Run S A) (f : A → Run S B)
    (s : S)
    → Returns P (m s)
    → ((a : A) (t : S) → P a t → Returns Q (f a t))
    → Returns Q ((m >>= f) s)
Returns->>= P Q m f s h k = go (m s) h
  where
    go :
        (o : Option (_ × _))
        → Returns P o
        → Returns Q (elim o [ none ↦ none | some (a, s') ↦ f a s' ])
    go none h = absurd h
    go (some (a, t)) h = k a t h
