-- ===== src/Elrond/Requests/Sent.antt =====
-- Which transactions the four requests of clients/elrond/client.go send.
use elrond_eth_bridge.Common.{ℕ, ◌≡◌, ◌⊎◌, true, false, List, [], ◌∷◌, Result, ok, err}
use elrond_eth_bridge.Common.Bytes.{Bytes}
use elrond_eth_bridge.Elrond.{TxData, Transaction, Proxy, Client}
use elrond_eth_bridge.Elrond.Requests.{gas_limit}

abbrev pub IsErr : Result Bytes → Type 0
IsErr (ok _) = ⊥
IsErr (err _) = Unit

module _ {W : Type 0} (proxy : Proxy W) where
  -- One more transaction, with the given data and gas limit.
  abbrev pub SendsOne : TxData → ℕ → List Transaction → List Transaction → Type 0
  SendsOne tx_data limit old [] = ⊥
  SendsOne tx_data limit old (tx ∷ rest) =
      (rest ≡ old) × (tx.gas_limit ≡ limit) × (proxy.to_data_bytes tx_data ≡ ok tx.tx_data)

  -- Nothing was sent, with an error; or one transaction was, by a relayer on the white list and
  -- after the contract was seen not to be paused.
  abbrev pub Sends : TxData → ℕ → Client W → Result Bytes × Client W → Type 0
  Sends tx_data limit s (r, t) =
      (IsErr r × (t.transactions ≡ s.transactions))
      ⊎ (((proxy.is_paused s.world).0 ≡ ok false)
          × ((proxy.is_whitelisted (proxy.is_paused s.world).1).0 ≡ true)
          × SendsOne tx_data limit s.transactions t.transactions)
