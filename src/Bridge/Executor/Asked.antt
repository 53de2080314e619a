-- ===== src/Bridge/Executor/Asked.antt =====
-- What WaitForTransferConfirmation of bridges/ethElrond/bridgeExecutor.go asks of Ethereum.
use elrond_eth_bridge.Common.{
  ℕ, zero, suc, ◌≤◌, ◌≡◌, ◌≢◌, refl, sym, ap, ◌∙◌, ◌⊎◌, inl, inr, Bool, true, false, Option, none,
  some, List, [], ◌∷◌, length, Result, ok, err, Bool-cases, arith,
}
use elrond_eth_bridge.Batch.{TransferBatch}
use elrond_eth_bridge.Bridge.Clients.{Environment}
use elrond_eth_bridge.Bridge.Monad.{
  Executor, Call, was_transfer_executed, Bridge, Returns, Returns->>=,
}
use elrond_eth_bridge.Bridge.Executor.{
  splits, wait_round, was_transfer_performed_on_ethereum, wait_for_transfer_confirmation_from,
  wait_for_transfer_confirmation,
}

-- What came of a round: no question, or the answer to the one question, an error included.
abbrev pub Outcome : Type 0
Outcome = Option (Result Bool)

-- The answers among the outcomes, on top of the calls before.
abbrev pub logged : ℕ → List Outcome → List Call → List Call
logged id [] calls = calls
logged id (none ∷ outcomes) calls = logged id outcomes calls
logged id (some (err e) ∷ outcomes) calls = logged id outcomes calls
logged id (some (ok answer) ∷ outcomes) calls =
    logged id outcomes (was_transfer_executed id answer ∷ calls)

-- No round follows a yes, and without a yes there are `n` rounds.
abbrev pub EndsWithin : ℕ → List Outcome → Type 0
EndsWithin zero outcomes = outcomes ≡ []
EndsWithin (suc n) [] = ⊥
EndsWithin (suc n) (outcome ∷ outcomes) =
    ((outcome ≡ some (ok true)) × (outcomes ≡ []))
    ⊎ ((outcome ≢ some (ok true)) × EndsWithin n outcomes)

says_yes : Outcome → Bool
says_yes (some (ok answer)) = answer
says_yes _ = false

module _ {W : Type 0} (env : Environment W) where
  open env use {ethereum_client}

  -- One round, from one state of the world to the next: it waits once, and exactly where the timer
  -- fired it asks once.
  abbrev pub IsRound : ℕ → Outcome → W → W → Type 0
  IsRound id outcome w after =
      let (fired, waited) = env.wait w in
      ((fired ≡ false) × (outcome ≡ none) × (after ≡ waited))
      ⊎ ((fired ≡ true)
          × (outcome ≡ some (ethereum_client.was_executed id waited).0)
          × (after ≡ (ethereum_client.was_executed id waited).1))

  -- Rounds one after the other, and nothing else.
  abbrev pub AreRounds : ℕ → List Outcome → W → W → Type 0
  AreRounds id [] w after = after ≡ w
  AreRounds id (outcome ∷ outcomes) w after =
      (next : W) × IsRound id outcome w next × AreRounds id outcomes next after

  -- What the loop leaves, with at most `n` rounds.
  pub record Waited (id n : ℕ) (s t : Bridge W) : Type 0 where
    pub outcomes : List Outcome
    pub rounds : AreRounds id outcomes s.world t.world
    pub count : length outcomes ≤ n
    pub ends : EndsWithin n outcomes
    pub log : t.calls ≡ logged id outcomes s.calls
    pub executor_kept : t.executor ≡ s.executor

  record Round (id : ℕ) (s : Bridge W) (answer : Bool) (t : Bridge W) : Type 0 where
    outcome : Outcome
    round : IsRound id outcome s.world t.world
    said : answer ≡ says_yes outcome
    log : t.calls ≡ logged id (outcome ∷ []) s.calls
    executor_kept : t.executor ≡ s.executor

  answered_round :
      (b : TransferBatch) (s : Bridge W) (r : Result Bool)
      → let (fired, waited) = env.wait s.world in
        s.executor.batch ≡ some b
        → fired ≡ true
        → (ethereum_client.was_executed b.id waited).0 ≡ r
        → wait_round env s
          ≡ some (
            says_yes (some r),
            record s {
              world = (ethereum_client.was_executed b.id waited).1;
              calls = logged b.id (some r ∷ []) s.calls;
            },
          )
  unfolding wait_round was_transfer_performed_on_ethereum says_yes
  answered_round b s (ok answer) stored fired is = ground (arith, stored, fired, is)
  answered_round b s (err e) stored fired is = ground (arith, stored, fired, is)

  unasked_round :
      (s : Bridge W)
      → (env.wait s.world).0 ≡ false
      → wait_round env s ≡ some (false, record s { world = (env.wait s.world).1 })
  unfolding wait_round
  unasked_round s stopped = ground (arith, stopped)

  wait_round-Round :
      (b : TransferBatch) (s : Bridge W)
      → s.executor.batch ≡ some b
      → Returns (Round b.id s) (wait_round env s)
  unfolding says_yes
  wait_round-Round b s stored = elim (Bool-cases (env.wait s.world).0) [
    | inr stopped ↦ rw (unasked_round s stopped) (record {
      outcome = none;
      round = inl (stopped, refl, refl);
      said = refl;
      log = refl;
      executor_kept = refl;
    })
    | inl fired ↦
        let r : Result Bool = (ethereum_client.was_executed b.id (env.wait s.world).1).0 in
        rw (answered_round b s r stored fired refl) (record {
          outcome = some r;
          round = inr (fired, refl, refl);
          said = refl;
          log = refl;
          executor_kept = refl;
        })
  ]

  logged-more :
      (id : ℕ) (outcome : Outcome) (outcomes : List Outcome) (calls : List Call)
      → logged id outcomes (logged id (outcome ∷ []) calls) ≡ logged id (outcome ∷ outcomes) calls
  logged-more id none outcomes calls = refl
  logged-more id (some (err e)) outcomes calls = refl
  logged-more id (some (ok answer)) outcomes calls = refl

  -- A round without a yes, and the rounds that follow.
  goes_on :
      (id n : ℕ) (s t u : Bridge W) → Round id s false t → Waited id n t u → Waited id (suc n) s u
  unfolding says_yes
  goes_on id n s t u r h = record {
    outcomes = r.outcome ∷ h.outcomes;
    rounds = (t.world, r.round, h.rounds);
    count = omega (arith, h.count);
    ends = inr (λ yes. cc (r.said, ap says_yes yes), h.ends);
    log = h.log ∙ ap (logged id h.outcomes) r.log ∙ logged-more id r.outcome h.outcomes s.calls;
    executor_kept = h.executor_kept ∙ r.executor_kept;
  }

  each_goes_on :
      (id n : ℕ) (s t : Bridge W) (o : Option (Unit {0} × Bridge W))
      → Round id s false t
      → Returns (λ _ u. Waited id n t u) o
      → Returns (λ _ u. Waited id (suc n) s u) o
  each_goes_on id n s t none r k = k
  each_goes_on id n s t (some (_, u)) r k = goes_on id n s t u r k

  yes_of : (outcome : Outcome) → true ≡ says_yes outcome → outcome ≡ some (ok true)
  unfolding says_yes
  yes_of none said = absurd (cc (said))
  yes_of (some (err e)) said = absurd (cc (said))
  yes_of (some (ok answer)) said = ap (λ (b : Bool). some (ok b)) (sym said)

  stops_at : (id n : ℕ) (s t : Bridge W) → Round id s true t → Waited id (suc n) s t
  stops_at id n s t r = record {
    outcomes = r.outcome ∷ [];
    rounds = (t.world, r.round, refl);
    count = omega arith;
    ends = inl (yes_of r.outcome r.said, refl);
    log = r.log;
    executor_kept = r.executor_kept;
  }

  stops :
      (id n : ℕ) (s t : Bridge W)
      → Round id s true t
      → Returns (λ _ u. Waited id (suc n) s u) (wait_for_transfer_confirmation_from env n true t)
  unfolding wait_for_transfer_confirmation_from
  stops id zero s t r = stops_at id 0 s t r
  stops id (suc n) s t r = stops_at id (suc n) s t r

  after-Round :
      (id n : ℕ) (s : Bridge W) (answer : Bool) (t : Bridge W)
      → Round id s answer t
      → Returns (λ _ u. Waited id n t u) (wait_for_transfer_confirmation_from env n false t)
      → Returns (λ _ u. Waited id (suc n) s u) (wait_for_transfer_confirmation_from env n answer t)
  after-Round id n s true t r k = stops id n s t r
  after-Round id n s false t r k =
      each_goes_on id n s t (wait_for_transfer_confirmation_from env n false t) r k

  confirmation_from-Waited :
      (b : TransferBatch) (n : ℕ) (s : Bridge W)
      → s.executor.batch ≡ some b
      → Returns (λ _ t. Waited b.id n s t) (wait_for_transfer_confirmation_from env n false s)
  unfolding wait_for_transfer_confirmation_from
  confirmation_from-Waited b zero s stored = record {
    outcomes = [];
    rounds = refl;
    count = omega arith;
    ends = refl;
    log = refl;
    executor_kept = refl;
  }
  confirmation_from-Waited b (suc n) s stored =
      Returns->>= (Round b.id s) (λ _ t. Waited b.id (suc n) s t) (wait_round env)
        (λ answer. wait_for_transfer_confirmation_from env n answer) s (wait_round-Round b s stored)
        λ answer t r.
          after-Round b.id n s answer t r (
            confirmation_from-Waited b n t
              (ap (λ (e : Executor). e.batch) r.executor_kept ∙ stored))

  -- With a stored batch, `WaitForTransferConfirmation` ends without a panic, leaves the executor as it
  -- is, and takes at most ten rounds, which are all that it does to the world: each waits once, and
  -- asks Ethereum once whether the batch was executed exactly where the timer fired. No round follows
  -- the answer that it was, and without this answer there are ten rounds, also after an error; the
  -- answers that are no errors are the calls that are recorded, in their order.
  pub wait_for_transfer_confirmation-Waited :
      (b : TransferBatch) (s : Bridge W)
      → s.executor.batch ≡ some b
      → Returns (λ _ t. Waited b.id splits s t) (wait_for_transfer_confirmation env s)
  unfolding wait_for_transfer_confirmation
  wait_for_transfer_confirmation-Waited b s stored = confirmation_from-Waited b splits s stored
