-- ===== src/Bridge/Monad.antt =====
-- The state of `bridgeExecutor` (bridges/ethElrond/bridgeExecutor.go), and what a method does to it.
-- A method is a function of the state that returns its result and the new state, or `none` when it
-- panics on a nil pointer. Beside the executor's fields the state has the world behind the clients
-- and the calls made so far, newest first: the requests that the executor sent, and the answers
-- that it got to the questions on which they rest.
use elrond_eth_bridge.Common.{ℕ, Bool, Option, none, some, List, ◌∷◌, Result, ok, err, Error}
use elrond_eth_bridge.Common.Int.{ℤ}
use elrond_eth_bridge.Batch.{Bytes, TransferBatch}

-- The configuration and the state of `bridgeExecutor`. The retry counters are `uint64`.
pub record Executor : Type 0 where
  pub max_quorum_retries_on_ethereum : ℕ
  pub max_quorum_retries_on_elrond : ℕ
  pub max_retries_on_was_proposed : ℕ
  pub batch : Option TransferBatch
  pub action_id : ℕ
  pub msg_hash : Bytes
  pub quorum_retries_on_ethereum : ℕ
  pub quorum_retries_on_elrond : ℕ
  pub retries_on_was_proposed : ℕ

-- A call of a client: a question with its answer, or a request.
pub data Call : Type 0 where
  my_turn : Bool → Call
  was_transfer_proposed : TransferBatch → Bool → Call
  transfer_proposed : TransferBatch → Call
  was_set_status_proposed : TransferBatch → Bool → Call
  set_status_proposed : TransferBatch → Call
  was_signed : ℕ → Bool → Call
  signed : ℕ → Call
  quorum_on_elrond : ℕ → Bool → Call
  was_action_executed : ℕ → Bool → Call
  action_performed : ℕ → TransferBatch → Call
  was_transfer_executed : ℕ → Bool → Call
  signature_broadcast : Bytes → Call
  quorum_on_ethereum : Bytes → Bool → Call
  transfer_executed : Bytes → TransferBatch → ℤ → Call
  signatures_cleared : Call
  batch_validated : TransferBatch → Bool → Call
  last_batch_id : ℕ → Call
  last_tx_id : ℕ → Call

pub record Bridge (W : Type 0) : Type 0 where
  pub executor : Executor
  pub world : W
  pub calls : List Call

abbrev pub M : Type 0 → Type 0 → Type 0
M W A = Bridge W → Option (A × Bridge W)

module _ {W : Type 0} where
  abbrev pub pure : {A : Type 0} → A → M W A
  pure a s = some (a, s)

  abbrev pub panic : {A : Type 0} → M W A
  panic s = none

  infixl 5 ◌>>=◌ ◌>>◌
  abbrev pub ◌>>=◌ : {A B : Type 0} → M W A → (A → M W B) → M W B
  ◌>>=◌ m f s = elim (m s) [ none ↦ none | some (a, s') ↦ f a s' ]

  abbrev pub ◌>>◌ : {A B : Type 0} → M W A → M W B → M W B
  m >> k = m >>= λ _. k

  abbrev pub gets : {A : Type 0} → (Executor → A) → M W A
  gets f s = some (f s.executor, s)

  abbrev pub modify : (Executor → Executor) → M W (Unit {0})
  modify f s = some (tt, record s { executor = f s.executor })

  -- A call behind the interfaces, with no record of it.
  abbrev pub ask : {A : Type 0} → (W → A × W) → M W A
  ask f s = let (a, w) = f s.world in some (a, record s { world = w })

  abbrev pub tell : (W → W) → M W (Unit {0})
  tell f s = some (tt, record s { world = f s.world })

  abbrev pub record_call : Call → M W (Unit {0})
  record_call c s = some (tt, record s { calls = c ∷ s.calls })

  -- `if err != nil { … }`, and the rest of the method.
  abbrev pub on_error : {A B : Type 0} → Result A → (Error → M W B) → (A → M W B) → M W B
  on_error (err e) failed k = failed e
  on_error (ok a) failed k = k a

  -- `if err != nil { return …, err }`, and the rest of the method.
  abbrev pub or_return : {A B : Type 0} → Result A → (A → M W (Result B)) → M W (Result B)
  or_return r = on_error r (λ e. pure (err e))

  -- A question whose answer, if there is one, is recorded.
  abbrev pub ask_recorded : {A : Type 0} → (W → Result A × W) → (A → Call) → M W (Result A)
  ask_recorded f c = do r ← ask f; or_return r (λ a. record_call (c a) >> pure (ok a))

  -- A request; it is recorded whether or not it fails.
  abbrev pub request : {A : Type 0} → Call → (W → Result A × W) → M W (Result A)
  request c f = record_call c >> ask f

  -- The executor's stored batch, with an early return where it is nil.
  abbrev pub with_batch : {A : Type 0} → A → (TransferBatch → M W A) → M W A
  with_batch early k s = elim s.executor.batch [ none ↦ pure early s | some b ↦ k b s ]

-- What holds of the outcome of a call that must not panic.
abbrev pub Returns : {W A : Type 0} → (A → Bridge W → Type 0) → Option (A × Bridge W) → Type 0
Returns P none = ⊥
Returns P (some (a, s)) = P a s

-- What holds of the outcome of a call, if it does not panic.
abbrev pub Gives : {W A : Type 0} → (A → Bridge W → Type 0) → Option (A × Bridge W) → Type 0
Gives P none = Unit
Gives P (some (a, s)) = P a s

abbrev pub Leaves : {W A : Type 0} → (Bridge W → Type 0) → Option (A × Bridge W) → Type 0
Leaves P none = Unit
Leaves P (some (a, s)) = P s

pub Leaves->>= :
    {W A B : Type 0} (P : Bridge W → Type 0) (m : M W A) (f : A → M W B) (s : Bridge W)
    → Leaves P (m s)
    → ((a : A) (t : Bridge W) → P t → Leaves P (f a t))
    → Leaves P ((m >>= f) s)
Leaves->>= {W = W} {A = A} P m f s h k = go (m s) h
  where
    go :
        (o : Option (A × Bridge W))
        → Leaves P o
        → Leaves P (elim o [ none ↦ none | some (a, s') ↦ f a s' ])
    go none h = tt
    go (some (a, t)) h = k a t h

pub Returns->>= :
    {W A B : Type 0} (P : A → Bridge W → Type 0) (Q : B → Bridge W → Type 0) (m : M W A)
    (f : A → M W B) (s : Bridge W)
    → Returns P (m s)
    → ((a : A) (t : Bridge W) → P a t → Returns Q (f a t))
    → Returns Q ((m >>= f) s)
Returns->>= P Q m f s h k = go (m s) h
  where
    go :
        (o : Option (_ × Bridge _))
        → Returns P o
        → Returns Q (elim o [ none ↦ none | some (a, s') ↦ f a s' ])
    go none h = absurd h
    go (some (a, t)) h = k a t h
