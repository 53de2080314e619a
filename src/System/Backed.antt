-- ===== src/System/Backed.antt =====
-- What the log of clients/ethereum/client.go says of the transactions that it sent.
use elrond_eth_bridge.Common.{
  ℕ, ◌≡◌, ◌∙◌, ap, inl, inr, sym, false, some, List, [], ◌∷◌, Result, ok, err, length, length-take,
  Elem, arith,
}
use mathlib.Core.Path.{subst}
use elrond_eth_bridge.Common.Bytes.{Bytes}
use elrond_eth_bridge.Common.Int.{pos, int64, ◌*ℤ◌}
use elrond_eth_bridge.Common.Panic.{Returns, Returns-mono}
use elrond_eth_bridge.Batch.{TransferBatch}
use elrond_eth_bridge.Signatures.{signatures}
use elrond_eth_bridge.Ethereum.{
  ArgListsBatch, Transaction, Chain, Call, paused, safe_balance, relayer_balance, transaction_sent,
  Client,
}
use elrond_eth_bridge.Ethereum.Transfer.{get_cumulated_transfers, execute_transfer}
use elrond_eth_bridge.Ethereum.Transfer.Balances.{Above, Adds, HasFee}
use elrond_eth_bridge.Ethereum.Transfer.Sent.{
  Covers, IsSound, SendsOne, Executes, gas_limit_of, execute_transfer-Executes,
}
use elrond_eth_bridge.System.Amounts.{HasAmounts, extract_list-some}

module _ {W : Type 0} (chain : Chain W) where
  -- Of the calls before a transaction: the contract was seen unpaused, every token had in the safe
  -- what the transfer needs of it, and the relayer had the fee. There are as many signatures as a
  -- quorum that the contract answered.
  pub record IsBacked (calls : List Call) (tx : Transaction) : Type 0 where
    pub unpaused : Elem (paused false) calls
    pub covered : Covers (get_cumulated_transfers tx.lists.tokens tx.lists.amounts) calls
    pub fee_covered : HasFee (int64 tx.gas_limit *ℤ tx.gas_price) calls
    pub agreed : (w : W) × (chain.quorum w).0 ≡ ok (length tx.signatures)

  -- Every transaction of a log is backed by the calls before it.
  unfoldable pub AllBacked : List Call → Type 0
  AllBacked [] = Unit
  AllBacked (transaction_sent tx ∷ calls) = IsBacked calls tx × AllBacked calls
  AllBacked (paused _ ∷ calls) = AllBacked calls
  AllBacked (safe_balance _ _ ∷ calls) = AllBacked calls
  AllBacked (relayer_balance _ ∷ calls) = AllBacked calls

  sound-IsBacked :
      (held : List Bytes) (gas_limit : ℕ) (batch : TransferBatch) (lists : ArgListsBatch) (q : ℕ)
      (w : W) (calls : List Call) (tx : Transaction)
      → (chain.quorum w).0 ≡ ok q
      → IsSound chain held gas_limit batch lists q calls tx
      → IsBacked calls tx
  sound-IsBacked held gas_limit batch lists q w calls tx asked h =
      let count : length tx.signatures ≡ q =
        ap length h.signatures_are ∙ length-take q held ∙ omega (arith, h.enough_signatures) in
      record {
        unpaused = h.unpaused;
        covered =
            subst (λ (l : ArgListsBatch). Covers (get_cumulated_transfers l.tokens l.amounts) calls)
              (sym h.lists_are) h.covered;
        fee_covered = h.fee_covered;
        agreed = (w, asked ∙ ap ok (sym count));
      }

  Above-AllBacked :
      (before after : List Call) → Above before after → AllBacked before → AllBacked after
  unfolding AllBacked
  Above-AllBacked before [] h k = absurd h
  Above-AllBacked before (paused _ ∷ calls) (inl same) k = subst AllBacked (sym same) k
  Above-AllBacked before (paused _ ∷ calls) (inr h) k = Above-AllBacked before calls h k
  Above-AllBacked before (safe_balance _ _ ∷ calls) (inl same) k = subst AllBacked (sym same) k
  Above-AllBacked before (safe_balance _ _ ∷ calls) (inr h) k = Above-AllBacked before calls h k
  Above-AllBacked before (relayer_balance _ ∷ calls) (inl same) k = subst AllBacked (sym same) k
  Above-AllBacked before (relayer_balance _ ∷ calls) (inr h) k = Above-AllBacked before calls h k
  Above-AllBacked before (transaction_sent _ ∷ calls) h k = absurd h

  Adds-AllBacked :
      (before after : List Call) → Adds before after → AllBacked before → AllBacked after
  Adds-AllBacked before after (inl same) k = subst AllBacked (sym same) k
  Adds-AllBacked before after (inr h) k = Above-AllBacked before after h k

  one_more :
      (held : List Bytes) (gas_limit : ℕ) (batch : TransferBatch) (lists : ArgListsBatch) (q : ℕ)
      (w : W) (before after : List Call)
      → (chain.quorum w).0 ≡ ok q
      → AllBacked before
      → SendsOne before (IsSound chain held gas_limit batch lists q) after
      → AllBacked after
  unfolding AllBacked
  one_more held gas_limit batch lists q w before [] asked h k = absurd k
  one_more held gas_limit batch lists q w before (transaction_sent tx ∷ calls) asked h
        (adds, sound) =
      (
        sound-IsBacked held gas_limit batch lists q w calls tx asked sound,
        Adds-AllBacked before calls adds h,
      )
  one_more held gas_limit batch lists q w before (paused _ ∷ calls) asked h k = absurd k
  one_more held gas_limit batch lists q w before (safe_balance _ _ ∷ calls) asked h k = absurd k
  one_more held gas_limit batch lists q w before (relayer_balance _ ∷ calls) asked h k = absurd k

  after_execute :
      (s : Client W) (hash : Bytes) (batch : TransferBatch) (lists : ArgListsBatch) (q : ℕ) (w : W)
      (r : Result Bytes) (t : Client W)
      → (chain.quorum w).0 ≡ ok q
      → AllBacked s.calls
      → Executes chain s hash batch lists q r t
      → AllBacked t.calls
  after_execute s hash batch lists q w (ok _) t asked h sends =
      one_more (signatures hash s.signature_holder) (gas_limit_of chain s batch) batch lists q w
        s.calls t.calls asked h sends
  after_execute s hash batch lists q w (err _) t asked h (inl adds) =
      Adds-AllBacked s.calls t.calls adds h
  after_execute s hash batch lists q w (err _) t asked h (inr sends) =
      one_more (signatures hash s.signature_holder) (gas_limit_of chain s batch) batch lists q w
        s.calls t.calls asked h sends

  -- A transfer of a batch without nil amounts does not panic, and leaves every transaction backed.
  pub execute_transfer-AllBacked :
      (s : Client W) (hash : Bytes) (batch : TransferBatch) (q : ℕ) (w : W)
      → (chain.quorum w).0 ≡ ok q
      → HasAmounts batch.deposits
      → AllBacked s.calls
      → Returns (λ _ t. AllBacked t.calls) (execute_transfer chain hash (some batch) (pos q) s)
  execute_transfer-AllBacked s hash batch q w asked amounts h =
      let (lists, extracted) = extract_list-some chain batch.deposits amounts in
      Returns-mono (Executes chain s hash batch lists q) (λ _ t. AllBacked t.calls)
        (execute_transfer chain hash (some batch) (pos q) s)
        (execute_transfer-Executes chain s hash batch lists q extracted)
        λ r t k. after_execute s hash batch lists q w r t asked h k
