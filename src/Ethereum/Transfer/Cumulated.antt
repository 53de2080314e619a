-- ===== src/Ethereum/Transfer/Cumulated.antt =====
-- getCumulatedTransfers of clients/ethereum/client.go, and what checkAvailableTokens makes sure of.
use elrond_eth_bridge.Common.{
  ◌≡◌, ◌⊎◌, inl, inr, refl, some, List, [], ◌∷◌, Elem, arith, if◌then◌else◌, Bool-cases,
  Option-cases,
}
use elrond_eth_bridge.Common.Bytes.{Bytes, bytes_equal, bytes_equal_iff}
use elrond_eth_bridge.Common.Int.{ℤ, pos, ◌+ℤ◌, ◌≤ℤ◌}
use elrond_eth_bridge.Ethereum.{Call, safe_balance}
use elrond_eth_bridge.Ethereum.Transfer.{add_transfer, cumulate, get_cumulated_transfers}
use elrond_eth_bridge.Ethereum.Transfer.Balances.{Funded}
use elrond_eth_bridge.Ethereum.Transfer.Sent.{Covers}

-- The sum of the amounts of a token, added to a start in the order of the lists.
pub sum_of : Bytes → List Bytes → List ℤ → ℤ → ℤ
sum_of token [] amounts start = start
sum_of token (t ∷ tokens) [] start = start
sum_of token (t ∷ tokens) (amount ∷ amounts) start =
    sum_of token tokens amounts (if bytes_equal t token then start +ℤ amount else start)

-- The sum in the map, where a token that is not there has 0.
value_of : Bytes → List (Bytes × ℤ) → ℤ
value_of token [] = pos 0
value_of token ((t, sum) ∷ transfers) =
    if bytes_equal t token then sum else value_of token transfers

HasToken : Bytes → List (Bytes × ℤ) → Type 0
HasToken token [] = ⊥
HasToken token ((t, sum) ∷ transfers) = (t ≡ token) ⊎ HasToken token transfers

value_of-add_transfer :
    (token t : Bytes) (amount : ℤ) (transfers : List (Bytes × ℤ))
    → value_of token (add_transfer t amount transfers) ≡ (
        if bytes_equal t token
        then value_of token transfers +ℤ amount
        else value_of token transfers)
unfolding value_of add_transfer
value_of-add_transfer token t amount [] = refl
value_of-add_transfer token t amount ((k, sum) ∷ transfers) = ground (
  arith,
  bytes_equal_iff k t,
  bytes_equal_iff k token,
  bytes_equal_iff t token,
  value_of-add_transfer token t amount transfers,
)

HasToken-add_transfer_new :
    (t : Bytes) (amount : ℤ) (transfers : List (Bytes × ℤ))
    → HasToken t (add_transfer t amount transfers)
unfolding HasToken add_transfer
HasToken-add_transfer_new t amount [] = inl refl
HasToken-add_transfer_new t amount ((k, sum) ∷ transfers) =
    ground (arith, bytes_equal_iff k t, HasToken-add_transfer_new t amount transfers)

HasToken-add_transfer_old :
    (token t : Bytes) (amount : ℤ) (transfers : List (Bytes × ℤ))
    → HasToken token transfers
    → HasToken token (add_transfer t amount transfers)
unfolding HasToken add_transfer
HasToken-add_transfer_old token t amount [] h = absurd h
HasToken-add_transfer_old token t amount ((k, sum) ∷ transfers) h =
    ground (arith, bytes_equal_iff k t, HasToken-add_transfer_old token t amount transfers)

value_of-cumulate :
    (token : Bytes) (tokens : List Bytes) (amounts : List ℤ) (start result : List (Bytes × ℤ))
    → cumulate tokens amounts start ≡ some result
    → value_of token result ≡ sum_of token tokens amounts (value_of token start)
unfolding cumulate sum_of
value_of-cumulate token [] amounts start result h = ground arith
value_of-cumulate token (t ∷ tokens) [] start result h = ground arith
value_of-cumulate token (t ∷ tokens) (amount ∷ amounts) start result h =
    rw (← value_of-add_transfer token t amount start)
      (value_of-cumulate token tokens amounts (add_transfer t amount start) result h)

HasToken-cumulate :
    (token : Bytes) (tokens : List Bytes) (amounts : List ℤ) (start result : List (Bytes × ℤ))
    → cumulate tokens amounts start ≡ some result
    → HasToken token start ⊎ Elem token tokens
    → HasToken token result
unfolding cumulate
HasToken-cumulate token [] amounts start result h has = ground arith
HasToken-cumulate token (t ∷ tokens) [] start result h has = ground arith
HasToken-cumulate token (t ∷ tokens) (amount ∷ amounts) start result h has =
    HasToken-cumulate token tokens amounts (add_transfer t amount start) result h (elim has [
      | inl old ↦ inl (HasToken-add_transfer_old token t amount start old)
      | inr (inl same) ↦ inl (rw same (HasToken-add_transfer_new t amount start))
      | inr (inr later) ↦ inr later
    ])

Funded-value_of :
    (token : Bytes) (transfers : List (Bytes × ℤ)) (calls : List Call)
    → Funded transfers calls
    → HasToken token transfers
    → (balance : ℤ) × Elem (safe_balance token balance) calls
      × (value_of token transfers ≤ℤ balance)
unfolding HasToken value_of
Funded-value_of token [] calls funded has = absurd has
Funded-value_of token ((t, sum) ∷ transfers) calls ((balance, seen, enough), rest) has =
    elim (Bool-cases (bytes_equal t token)) [
      | inl same ↦ rw same (balance, rw (← (bytes_equal_iff t token).0 same) seen, enough)
      | inr differs ↦
          rw differs
            (Funded-value_of token transfers calls rest (ground (arith, bytes_equal_iff t token)))
    ]

-- When the cumulated transfers of the lists are covered, then for every token of the lists some
-- balance of the safe was seen that is at least the sum of all the amounts of that token.
pub Covers-sum_of :
    (token : Bytes) (tokens : List Bytes) (amounts : List ℤ) (calls : List Call)
    → Covers (get_cumulated_transfers tokens amounts) calls
    → Elem token tokens
    → (balance : ℤ) × Elem (safe_balance token balance) calls
      × (sum_of token tokens amounts (pos 0) ≤ℤ balance)
unfolding get_cumulated_transfers value_of
Covers-sum_of token tokens amounts calls covered needed =
    elim (Option-cases (get_cumulated_transfers tokens amounts)) [
      | inl panics ↦ absurd (rw panics at covered)
      | inr (transfers, found) ↦ rw (← value_of-cumulate token tokens amounts [] transfers found) (
          Funded-value_of token transfers calls (rw found at covered)
            (HasToken-cumulate token tokens amounts [] transfers found (inr needed)))
    ]
