-- ===== src/Ethereum/Batches/Fetched.antt =====
-- What a batch that GetBatch of clients/ethereum/client.go returns has to do with the contract's.
use elrond_eth_bridge.Common.{
  ℕ, u64, ◌≡◌, ◌≢◌, ◌⊎◌, inl, inr, refl, some, none, List, [], ◌∷◌, Result, ok, err, length,
  replicate, Option-cases, Bool-cases, arith,
}
use mathlib.Core.Path.{subst₂}
use elrond_eth_bridge.Common.Bytes.{Bytes, bytes_equal, bytes_equal_iff}
use elrond_eth_bridge.Common.State.{give, ◌>>=◌, or_fail}
use elrond_eth_bridge.Batch.{DepositTransfer, TransferBatch}
use elrond_eth_bridge.Ethereum.{ContractBatch, ContractDeposit, Chain, Client}
use elrond_eth_bridge.Ethereum.Batches.{
  cached_token, deposit_transfer, add_deposit, convert_deposits, transfer_batch, create_batch,
  question, get_batch,
}

module _ {W : Type 0} (chain : Chain W) where
  -- The chain has answered this converted token for the token, in some state of the world.
  abbrev pub IsConverted : Bytes → Bytes → Type 0
  IsConverted token converted = (w : W) × ((chain.convert_token token w).0 ≡ ok converted)

  -- One transfer for each deposit, in order: the nonce as a `uint64`, the recipient, the depositor, the
  -- token and the amount of the deposit, their texts, and a converted token that the chain answered.
  abbrev pub Matches : List ContractDeposit → List DepositTransfer → Type 0
  Matches [] [] = Unit
  Matches [] (dt ∷ dts) = ⊥
  Matches (d ∷ ds) [] = ⊥
  Matches (d ∷ ds) (dt ∷ dts) =
      (dt ≡ record {
        nonce = u64 d.nonce;
        to_bytes = d.recipient;
        displayable_to = chain.to_bech32_string d.recipient;
        from_bytes = d.depositor;
        displayable_from = chain.to_hex_string d.depositor;
        token_bytes = d.token_address;
        converted_token_bytes = dt.converted_token_bytes;
        displayable_token = chain.to_hex_string d.token_address;
        amount = some d.amount;
      })
      × IsConverted d.token_address dt.converted_token_bytes
      × Matches ds dts

-- The transfers of a token have one converted token.
abbrev pub Agrees : Bytes → Bytes → List DepositTransfer → Type 0
Agrees token converted [] = Unit
Agrees token converted (dt ∷ dts) =
    ((dt.token_bytes ≢ token) ⊎ (dt.converted_token_bytes ≡ converted)) × Agrees token converted dts

abbrev pub IsConsistent : List DepositTransfer → Type 0
IsConsistent [] = Unit
IsConsistent (dt ∷ dts) = Agrees dt.token_bytes dt.converted_token_bytes dts × IsConsistent dts

pub cached_same :
    (token converted : Bytes) (cached : List (Bytes × Bytes))
    → cached_token token ((token, converted) ∷ cached) ≡ some converted
unfolding cached_token
cached_same token converted cached = ground (arith, bytes_equal_iff token token)

pub cached_grows :
    (token converted : Bytes) (cached : List (Bytes × Bytes))
    → cached_token token cached ≡ none
    → (other old : Bytes) → cached_token other cached ≡ some old
    → cached_token other ((token, converted) ∷ cached) ≡ some old
unfolding cached_token
cached_grows token converted cached miss other old known =
    ground (arith, bytes_equal_iff token other, known, miss, Bool-cases (bytes_equal token other))

module _ {W : Type 0} (chain : Chain W) where
  -- All that is cached is kept.
  abbrev KeepsCache : List (Bytes × Bytes) → List DepositTransfer → Type 0
  KeepsCache cached dts =
      (token converted : Bytes)
      → cached_token token cached ≡ some converted
      → Agrees token converted dts

  abbrev Converts :
      List ContractDeposit → List (Bytes × Bytes) → Result (List DepositTransfer) → Type 0
  Converts ds cached (err _) = Unit
  Converts ds cached (ok dts) = Matches chain ds dts × IsConsistent dts × KeepsCache cached dts

  -- Every cached token was converted by the chain.
  AllConverted : List (Bytes × Bytes) → Type 0
  AllConverted cached =
      (token converted : Bytes)
      → cached_token token cached ≡ some converted
      → IsConverted chain token converted

  no_cached : AllConverted []
  unfolding AllConverted cached_token
  no_cached token converted known = absurd (cc (known))

  converted_grows :
      (token converted : Bytes) (cached : List (Bytes × Bytes))
      → IsConverted chain token converted
      → AllConverted cached
      → AllConverted ((token, converted) ∷ cached)
  unfolding AllConverted cached_token
  converted_grows token converted cached one all other old known =
      elim (Bool-cases (bytes_equal token other)) [
        | inl e ↦
            subst₂ (IsConverted chain) ((bytes_equal_iff token other).0 e)
              (ground (arith, e, known)) one
        | inr n ↦ all other old (ground (arith, n, known))
      ]

  -- One deposit more, whose token is in the cache with which the others are converted.
  add_deposit-Converts :
      (d : ContractDeposit) (converted : Bytes) (ds : List ContractDeposit)
      (cached later : List (Bytes × Bytes)) (r : Result (List DepositTransfer))
      → IsConverted chain d.token_address converted
      → cached_token d.token_address later ≡ some converted
      → ((token old : Bytes)
          → cached_token token cached ≡ some old
          → cached_token token later ≡ some old)
      → Converts ds later r
      → Converts (d ∷ ds) cached (add_deposit (deposit_transfer chain d converted) r)
  unfolding deposit_transfer
  add_deposit-Converts d converted ds cached later (err e) one hit grows h = tt
  add_deposit-Converts d converted ds cached later (ok dts) one hit grows
        (matches, consistent, keeps) =
      (
        (refl, one, matches),
        (keeps d.token_address converted hit, consistent),
        λ token old known. ground (
          arith,
          grows token old known,
          keeps token old,
          bytes_equal_iff d.token_address token,
          Bool-cases (bytes_equal d.token_address token),
        ),
      )

  convert_deposits-Converts :
      (ds : List ContractDeposit) (cached : List (Bytes × Bytes)) (s : Client W)
      → AllConverted cached
      → Converts ds cached (convert_deposits chain ds cached s).0
  unfolding convert_deposits AllConverted
  convert_deposits-Converts [] cached s all = (tt, tt, λ token converted known. tt)
  convert_deposits-Converts (d ∷ ds) cached s all =
      elim (Option-cases (cached_token d.token_address cached)) [
        | inr (converted, hit) ↦
            rw (hit, Converts)
              (add_deposit-Converts d converted ds cached cached
                (convert_deposits chain ds cached s).0 (all d.token_address converted hit) hit
                (λ token old known. known) (convert_deposits-Converts ds cached s all))
        | inl miss ↦
            rw (miss, Converts)
              (converted miss (convert_deposits-Converts ds)
                (chain.convert_token d.token_address s.world).0 refl
                (record s { world = (chain.convert_token d.token_address s.world).1 }))
      ]
    where
      converted :
          cached_token d.token_address cached ≡ none
          → ((later : List (Bytes × Bytes)) (t : Client W)
              → AllConverted later
              → Converts ds later (convert_deposits chain ds later t).0)
          → (r : Result Bytes) → (chain.convert_token d.token_address s.world).0 ≡ r
          → (t : Client W)
          → Converts
              (d ∷ ds)
              cached
              (or_fail r
                (λ c. convert_deposits chain ds ((d.token_address, c) ∷ cached) >>= λ rest.
                  give (add_deposit (deposit_transfer chain d c) rest))
                t).0
      converted miss ih (err e) answered t = tt
      converted miss ih (ok c) answered t =
          add_deposit-Converts d c ds cached ((d.token_address, c) ∷ cached)
            (convert_deposits chain ds ((d.token_address, c) ∷ cached) t).0 (s.world, answered)
            (cached_same d.token_address c cached) (cached_grows d.token_address c cached miss)
            (ih ((d.token_address, c) ∷ cached) t
              (converted_grows d.token_address c cached (s.world, answered) all))

  -- What `GetBatch` returns of the contract's answers.
  abbrev pub Fetches :
      Result ContractBatch → Result (List ContractDeposit) → Result TransferBatch → Type 0
  Fetches (ok batch) (ok deposits) (ok transfer_batch) =
      (transfer_batch.id ≡ u64 batch.nonce)
      × (batch.deposits_count ≡ length deposits)
      × (transfer_batch.statuses ≡ replicate (length transfer_batch.deposits) 0)
      × Matches chain deposits transfer_batch.deposits
      × IsConsistent transfer_batch.deposits
  Fetches (ok batch) (err _) (ok _) = ⊥
  Fetches (err _) deposits (ok _) = ⊥
  Fetches batch deposits (err _) = Unit

  converted-Fetches :
      (batch : ContractBatch) (ds : List ContractDeposit) (r : Result (List DepositTransfer))
      (t : Client W)
      → batch.deposits_count ≡ length ds
      → Converts ds [] r
      → Fetches (ok batch) (ok ds) (or_fail r (transfer_batch chain batch) t).0
  converted-Fetches batch ds (err e) t counted h = tt
  converted-Fetches batch ds (ok dts) t counted (matches, consistent, _) =
      (refl, counted, refl, matches, consistent)

  create_batch-Fetches :
      (batch : ContractBatch) (ds : List ContractDeposit) (s : Client W)
      → Fetches (ok batch) (ok ds) (create_batch chain batch ds s).0
  unfolding create_batch
  create_batch-Fetches batch ds s = ground (
    arith,
    converted-Fetches batch ds (convert_deposits chain ds [] s).0
        (convert_deposits chain ds [] s).1,
    convert_deposits-Converts ds [] s no_cached,
  )

  -- A batch that `GetBatch` returns has the contract's nonce as its ID, as many deposits as the
  -- contract counts, one for each of the contract's, in order, with its nonce as a `uint64`, its
  -- recipient, depositor, token and amount, and with a converted token that the chain answered for
  -- its token, deposits of one token with one converted token, and a status 0 for each deposit; it is returned only when the
  -- contract gave both the batch and the deposits.
  pub get_batch-Fetches :
      (nonce : ℕ) (s : Client W)
      → Fetches
          (chain.get_batch nonce s.world).0
          (chain.get_batch_deposits nonce (chain.get_batch nonce s.world).1).0
          (get_batch chain nonce s).0
  unfolding get_batch
  get_batch-Fetches nonce s =
      answered (chain.get_batch nonce s.world).0
        (record s { world = (chain.get_batch nonce s.world).1 })
    where
      deposited :
          (batch : ContractBatch) (r : Result (List ContractDeposit)) (t : Client W)
          → Fetches (ok batch) r (or_fail r (create_batch chain batch) t).0
      deposited batch (err e) t = tt
      deposited batch (ok ds) t = create_batch-Fetches batch ds t

      answered :
          (r : Result ContractBatch) (t : Client W)
          → Fetches r
              (chain.get_batch_deposits nonce t.world).0
              (or_fail r
                (λ batch. question chain (chain.get_batch_deposits nonce) >>= λ r.
                  or_fail r (create_batch chain batch))
                t).0
      answered (err e) t = tt
      answered (ok batch) t =
          deposited batch (chain.get_batch_deposits nonce t.world).0
            (record t { world = (chain.get_batch_deposits nonce t.world).1 })
