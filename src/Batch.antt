-- ===== src/Batch.antt =====
-- clients/batch.go and clients/constants.go: a batch of deposits and its statuses.
pub mod Resolve
pub mod Validator
mod Tests
use elrond_eth_bridge.Common.{
  ℕ, zero, suc, ◌+◌, ◌-◌, String, List, [], ◌∷◌, ◌++◌, Option, some, none, map, length, set, ltb,
  if◌then◌else◌, ◌==◌,
}
pub use elrond_eth_bridge.Common.Bytes.{Bytes}
use elrond_eth_bridge.Common.Int.{ℤ, pos}

abbrev pub executed : ℕ
executed = 3

abbrev pub rejected : ℕ
rejected = 4

-- `Amount` is a pointer to a `big.Int`, which may be nil.
pub record DepositTransfer : Type 0 where
  pub nonce : ℕ
  pub to_bytes : Bytes
  pub displayable_to : String
  pub from_bytes : Bytes
  pub displayable_from : String
  pub token_bytes : Bytes
  pub converted_token_bytes : Bytes
  pub displayable_token : String
  pub amount : Option ℤ

pub record TransferBatch : Type 0 where
  pub id : ℕ
  pub deposits : List DepositTransfer
  pub statuses : Bytes

-- `copy(dst, src)` into a fresh slice of the same length: element by element.
copy_bytes : Bytes → Bytes
copy_bytes [] = []
copy_bytes (b ∷ bs) = b ∷ copy_bytes bs

abbrev clone_amount : Option ℤ → Option ℤ
clone_amount none = some (pos 0)
clone_amount (some a) = some a

-- `DepositTransfer.Clone`: a nil amount becomes 0.
pub clone_deposit : DepositTransfer → DepositTransfer
unfolding copy_bytes
clone_deposit dt = record {
  nonce = dt.nonce;
  to_bytes = copy_bytes dt.to_bytes;
  displayable_to = dt.displayable_to;
  from_bytes = copy_bytes dt.from_bytes;
  displayable_from = dt.displayable_from;
  token_bytes = copy_bytes dt.token_bytes;
  converted_token_bytes = copy_bytes dt.converted_token_bytes;
  displayable_token = dt.displayable_token;
  amount = clone_amount dt.amount;
}

-- `TransferBatch.Clone`
pub clone : TransferBatch → TransferBatch
unfolding clone_deposit copy_bytes
clone tb = record {
  id = tb.id;
  deposits = map clone_deposit tb.deposits;
  statuses = copy_bytes tb.statuses;
}

-- `for i := newNumDeposits; i < oldLen; i++`, by the rounds left
reject_from : ℕ → ℕ → Bytes → Bytes
reject_from zero i statuses = statuses
reject_from (suc rounds) i statuses = reject_from rounds (i + 1) (set statuses i rejected)

-- `for newNumDeposits > len(tb.Statuses)`: each round adds one, so that many rounds suffice
append_rejected : ℕ → ℕ → Bytes → Bytes
append_rejected zero n statuses = statuses
append_rejected (suc rounds) n statuses =
    let rest = append_rejected rounds n (statuses ++ rejected ∷ []) in
    if ltb (length statuses) n then rest else statuses

-- `ResolveNewDeposits`; the callers pass a length, so the number is not negative.
unfoldable pub resolve_new_deposits : ℕ → TransferBatch → TransferBatch
unfolding reject_from append_rejected
resolve_new_deposits n tb =
    let old_len = length tb.statuses in
    if n == old_len
    then tb
    else record tb { statuses = append_rejected n n (reject_from (old_len - n) n tb.statuses) }
