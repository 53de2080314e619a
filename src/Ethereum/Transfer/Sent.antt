-- ===== src/Ethereum/Transfer/Sent.antt =====
-- What holds when ExecuteTransfer of clients/ethereum/client.go sends a transaction.
use elrond_eth_bridge.Common.{
  ℕ, ◌+◌, ◌*◌, ◌≤◌, ◌≡◌, sym, ◌∙◌, ◌⊎◌, inl, inr, refl, false, Option, some, none, List, [], ◌∷◌,
  Result, ok, err, length, take, Elem, Option-cases, u64, arith, quorum_not_reached,
}
use elrond_eth_bridge.Common.Bytes.{Bytes}
use elrond_eth_bridge.Common.Int.{ℤ, pos, int64, ◌*ℤ◌}
use elrond_eth_bridge.Common.Panic.{Run, ◌>>=◌, ◌>>◌, or_return, Returns, Returns-mono, Returns->>=}
use elrond_eth_bridge.Batch.{DepositTransfer, TransferBatch}
use elrond_eth_bridge.Signatures.{signatures}
use elrond_eth_bridge.Ethereum.{
  ArgListsBatch, Transaction, Chain, Call, paused, safe_balance, relayer_balance, transaction_sent,
  Client, ask, record_call,
}
use elrond_eth_bridge.Ethereum.Transfer.{
  get_cumulated_transfers, extract_list, check_available_tokens, check_relayer_funds_for_fee,
  get_nonce, reduce_signatures, send_transfer, execute_transfer,
}
use elrond_eth_bridge.Ethereum.Transfer.Balances.{
  Adds, Adds-trans, Adds-keeps, Funded-mono, HasFee, Funded, IsQuiet, IsQuiet-trans, Paid, FeePaid,
  get_cumulated-some, check_available-Paid, check_relayer_funds-FeePaid,
}

-- A transaction on top of the older log and the answers that came since, of which `P` holds.
abbrev pub SendsOne : List Call → (List Call → Transaction → Type 0) → List Call → Type 0
SendsOne before P [] = ⊥
SendsOne before P (transaction_sent tx ∷ calls) = Adds before calls × P calls tx
SendsOne before P (paused _ ∷ calls) = ⊥
SendsOne before P (safe_balance _ _ ∷ calls) = ⊥
SendsOne before P (relayer_balance _ ∷ calls) = ⊥

-- Every token that the lists need was seen to be in the safe.
abbrev pub Covers : Option (List (Bytes × ℤ)) → List Call → Type 0
Covers none calls = ⊥
Covers (some transfers) calls = Funded transfers calls

module _ {W : Type 0} (chain : Chain W) where
  -- A transaction for the batch, sent when the contract was not paused, with as many of the held
  -- signatures of the hash as the quorum asks for, and with its tokens and its fee paid for.
  pub record IsSound (held : List Bytes) (gas_limit : ℕ) (batch : TransferBatch)
      (lists : ArgListsBatch) (q : ℕ) (calls : List Call) (tx : Transaction) : Type 0 where
    pub unpaused : Elem (paused false) calls
    pub enough_signatures : q ≤ length held
    pub signatures_are : tx.signatures ≡ take q held
    pub lists_are : tx.lists ≡ lists
    pub batch_is : tx.batch_id ≡ batch.id
    pub gas_is : tx.gas_limit ≡ gas_limit
    pub covered : Covers (get_cumulated_transfers lists.tokens lists.amounts) calls
    pub fee_covered : HasFee (int64 tx.gas_limit *ℤ tx.gas_price) calls

  -- The gas limit of a transfer, which wraps as a `uint64`.
  abbrev pub gas_limit_of : Client W → TransferBatch → ℕ
  gas_limit_of s batch =
      u64 (s.transfer_gas_limit_base + u64 (length batch.deposits * s.transfer_gas_limit_for_each))

  -- One more transaction, which is sound; but for it, the log has only more answers.
  abbrev pub SendsSound : Client W → Bytes → TransferBatch → ArgListsBatch → ℕ → Client W → Type 0
  SendsSound s msg_hash batch lists q t =
      SendsOne s.calls
        (IsSound (signatures msg_hash s.signature_holder) (gas_limit_of s batch) batch lists q)
        t.calls

  -- What `ExecuteTransfer` leaves. An error can also come from the node that got the transaction.
  abbrev pub Executes :
      Client W → Bytes → TransferBatch → ArgListsBatch → ℕ → Result Bytes → Client W → Type 0
  Executes s msg_hash batch lists q (ok _) t = SendsSound s msg_hash batch lists q t
  Executes s msg_hash batch lists q (err _) t =
      Adds s.calls t.calls ⊎ SendsSound s msg_hash batch lists q t

  -- The tail of `ExecuteTransfer`, from the balances on.
  abbrev pay :
      TransferBatch → ℤ → ℤ → ℕ → List Bytes → ArgListsBatch → Run (Client W) (Result Bytes)
  pay batch nonce gas_price gas_limit sigs lists = do
    r ← check_available_tokens chain lists.tokens lists.amounts
    or_return r λ _. do
      r ← check_relayer_funds_for_fee chain (int64 gas_limit *ℤ gas_price)
      or_return r λ _.
          let tx : Transaction = record {
            nonce = nonce;
            gas_limit = gas_limit;
            gas_price = gas_price;
            lists = lists;
            batch_id = batch.id;
            signatures = sigs;
          } in
          (record_call (transaction_sent tx) >> ask (chain.execute_transfer tx))

  module _ (s : Client W) (msg_hash : Bytes) (batch : TransferBatch) (lists : ArgListsBatch) (q : ℕ)
      (nonce gas_price : ℤ) (transfers : List (Bytes × ℤ))
      (found : get_cumulated_transfers lists.tokens lists.amounts ≡ some transfers)
      (enough : q ≤ length (signatures msg_hash s.signature_holder)) where
    abbrev gas : ℕ
    gas =
        u64
          (s.transfer_gas_limit_base + u64 (length batch.deposits * s.transfer_gas_limit_for_each))

    abbrev tx_of : Transaction
    tx_of = record {
      nonce = nonce;
      gas_limit = gas;
      gas_price = gas_price;
      lists = lists;
      batch_id = batch.id;
      signatures = take q (signatures msg_hash s.signature_holder);
    }

    sound :
        (u : Client W)
        → IsQuiet s u
        → Elem (paused false) s.calls
        → Funded transfers u.calls
        → HasFee (int64 gas *ℤ gas_price) u.calls
        → SendsSound s msg_hash batch lists q
            (record u { calls = transaction_sent tx_of ∷ u.calls })
    sound u quiet unpaused funded fee = (
      quiet.only_answers,
      record {
        unpaused = Adds-keeps s.calls u.calls (paused false) quiet.only_answers unpaused;
        enough_signatures = enough;
        signatures_are = refl;
        lists_are = refl;
        batch_is = refl;
        gas_is = refl;
        covered = rw found funded;
        fee_covered = fee;
      },
    )

    either_way :
        (r : Result Bytes) (t : Client W)
        → SendsSound s msg_hash batch lists q t
        → Executes s msg_hash batch lists q r t
    either_way (ok _) t h = h
    either_way (err _) t h = inr h

    after_fee :
        (t : Client W) (r : Result (Unit {0})) (u : Client W)
        → Elem (paused false) s.calls
        → IsQuiet s t × Funded transfers t.calls
        → FeePaid (int64 gas *ℤ gas_price) t r u
        → Returns (Executes s msg_hash batch lists q) (
            or_return r
              (λ _. record_call (transaction_sent tx_of) >> ask (chain.execute_transfer tx_of))
              u)
    after_fee t (err e) u unpaused (quiet, funded) h =
        inl (Adds-trans s.calls t.calls u.calls quiet.only_answers h.only_answers)
    after_fee t (ok _) u unpaused (quiet, funded) (h, fee) =
        either_way (chain.execute_transfer tx_of u.world).0
          (record u {
            world = (chain.execute_transfer tx_of u.world).1;
            calls = transaction_sent tx_of ∷ u.calls;
          })
          (sound u (IsQuiet-trans s t u quiet h) unpaused
            (Funded-mono transfers t.calls u.calls
              (λ c. Adds-keeps t.calls u.calls c h.only_answers) funded)
            fee)

    after_balances :
        (r : Result (Unit {0})) (t : Client W)
        → Elem (paused false) s.calls
        → Paid transfers s r t
        → Returns (Executes s msg_hash batch lists q) (
            or_return r
              (λ _. check_relayer_funds_for_fee chain (int64 gas *ℤ gas_price) >>= λ r.
                or_return r
                  (λ _. record_call (transaction_sent tx_of) >> ask (chain.execute_transfer tx_of)))
              t)
    after_balances (err e) t unpaused h = inl h.only_answers
    after_balances (ok _) t unpaused h =
        Returns->>= (FeePaid (int64 gas *ℤ gas_price) t) (Executes s msg_hash batch lists q)
          (check_relayer_funds_for_fee chain (int64 gas *ℤ gas_price))
          (λ r.
            or_return r
              (λ _. record_call (transaction_sent tx_of) >> ask (chain.execute_transfer tx_of)))
          t (check_relayer_funds-FeePaid chain (int64 gas *ℤ gas_price) t)
          λ r u. after_fee t r u unpaused h

    after_signatures :
        Elem (paused false) s.calls
        → Returns (Executes s msg_hash batch lists q) (
            pay batch nonce gas_price gas (take q (signatures msg_hash s.signature_holder)) lists s)
    after_signatures unpaused =
        Returns->>= (Paid transfers s) (Executes s msg_hash batch lists q)
          (check_available_tokens chain lists.tokens lists.amounts)
          (λ r. or_return r (λ _.
            check_relayer_funds_for_fee chain (int64 gas *ℤ gas_price) >>= λ r.
            or_return r
              (λ _. record_call (transaction_sent tx_of) >> ask (chain.execute_transfer tx_of))))
          s (check_available-Paid chain lists.tokens lists.amounts transfers s found)
          λ r t. after_balances r t unpaused

  reduce_cases :
      (sigs : List Bytes) (q : ℕ)
      → (reduce_signatures sigs (pos q) ≡ some (err quorum_not_reached))
        ⊎ ((q ≤ length sigs) × (reduce_signatures sigs (pos q) ≡ some (ok (take q sigs))))
  unfolding reduce_signatures
  reduce_cases sigs q = ground arith

  pub length-extract_list :
      (deposits : List DepositTransfer) (lists : ArgListsBatch)
      → extract_list chain deposits ≡ some lists
      → (length lists.tokens ≡ length deposits)
        × (length lists.recipients ≡ length deposits)
        × (length lists.amounts ≡ length deposits)
        × (length lists.nonces ≡ length deposits)
  unfolding extract_list
  length-extract_list [] lists h = ground arith
  length-extract_list (dt ∷ deposits) lists h = grind (
    arith,
    Option-cases (extract_list chain deposits),
    Option-cases dt.amount,
    length-extract_list deposits,
  )

  -- The client once it saw that the contract is not paused.
  abbrev unpaused_at : Client W → W → Client W
  unpaused_at s w = record s { world = w; calls = paused false ∷ s.calls }

  sends_since :
      (s : Client W) (msg_hash : Bytes) (batch : TransferBatch) (lists : ArgListsBatch) (q : ℕ)
      (w : W) (t : Client W)
      → SendsSound (unpaused_at s w) msg_hash batch lists q t
      → SendsSound s msg_hash batch lists q t
  sends_since s msg_hash batch lists q w t = of_log t.calls
    where
      of_log :
          (calls : List Call)
          → SendsOne
              (paused false ∷ s.calls)
              (IsSound
                (signatures msg_hash s.signature_holder)
                (gas_limit_of s batch)
                batch
                lists
                q)
              calls
          → SendsOne s.calls
              (IsSound
                (signatures msg_hash s.signature_holder)
                (gas_limit_of s batch)
                batch
                lists
                q)
              calls
      of_log [] h = h
      of_log (transaction_sent tx ∷ calls) (adds, sound) =
          (Adds-trans s.calls (paused false ∷ s.calls) calls (inr (inl refl)) adds, sound)
      of_log (paused _ ∷ calls) h = h
      of_log (safe_balance _ _ ∷ calls) h = h
      of_log (relayer_balance _ ∷ calls) h = h

  -- What holds of the transfer since then holds of the whole of it.
  from_unpaused :
      (s : Client W) (msg_hash : Bytes) (batch : TransferBatch) (lists : ArgListsBatch) (q : ℕ)
      (w : W) (r : Result Bytes) (t : Client W)
      → Executes (unpaused_at s w) msg_hash batch lists q r t
      → Executes s msg_hash batch lists q r t
  from_unpaused s msg_hash batch lists q w (ok _) t h = sends_since s msg_hash batch lists q w t h
  from_unpaused s msg_hash batch lists q w (err _) t (inl h) =
      inl (Adds-trans s.calls (paused false ∷ s.calls) t.calls (inr (inl refl)) h)
  from_unpaused s msg_hash batch lists q w (err _) t (inr h) =
      inr (sends_since s msg_hash batch lists q w t h)

  send_transfer-Executes :
      (s : Client W) (msg_hash : Bytes) (batch : TransferBatch) (lists : ArgListsBatch) (q : ℕ)
      (nonce gas_price : ℤ) (w : W)
      → extract_list chain batch.deposits ≡ some lists
      → Returns
          (Executes s msg_hash batch lists q)
          (send_transfer chain msg_hash batch (pos q) nonce gas_price (unpaused_at s w))
  unfolding send_transfer
  send_transfer-Executes s msg_hash batch lists q nonce gas_price w extracted =
      let (tokens_len, _, amounts_len, _) = length-extract_list batch.deposits lists extracted in
      let (transfers, found) =
        get_cumulated-some lists.tokens lists.amounts (tokens_len ∙ sym amounts_len) in
      elim (reduce_cases (signatures msg_hash s.signature_holder) q) [
        | inl few ↦ rw few (inl (inr (inl refl)))
        | inr (enough, reduced) ↦ rw reduced (
            rw extracted (
              Returns-mono (Executes (unpaused_at s w) msg_hash batch lists q)
                (Executes s msg_hash batch lists q) _
                (after_signatures (unpaused_at s w) msg_hash batch lists q nonce gas_price transfers
                  found enough (inl refl))
                λ r t h. from_unpaused s msg_hash batch lists q w r t h))
      ]

  -- For a batch without nil amounts and a quorum that is not negative, `ExecuteTransfer` does not
  -- panic, and it sends one transaction or, with an error, none. A transaction is sent only after
  -- the contract was seen not to be paused, the safe to have the sum that each token needs, and the
  -- relayer to have the fee; it carries the lists of the batch and as many of the signatures held
  -- for the hash as the quorum asks for, of which there are enough.
  pub execute_transfer-Executes :
      (s : Client W) (msg_hash : Bytes) (batch : TransferBatch) (lists : ArgListsBatch) (q : ℕ)
      → extract_list chain batch.deposits ≡ some lists
      → Returns
          (Executes s msg_hash batch lists q)
          (execute_transfer chain msg_hash (some batch) (pos q) s)
  unfolding execute_transfer get_nonce
  execute_transfer-Executes s msg_hash batch lists q extracted = grind (
    arith,
    λ (nonce : ℤ) (gas_price : ℤ) (w : W).
        send_transfer-Executes s msg_hash batch lists q nonce gas_price w extracted,
  )
