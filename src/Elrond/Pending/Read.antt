-- ===== src/Elrond/Pending/Read.antt =====
-- What the pending batch of clients/elrond/client.go has to do with the contract's answer.
use elrond_eth_bridge.Common.{
  ◌≡◌, ◌≢◌, ◌<◌, ◌^◌, ◌%◌, ◌⊎◌, inl, inr, refl, ap, if◌then◌else◌, no_pending_batch_available,
  not_uint64_bytes, some, none, List, [], ◌∷◌, Result, ok, err, length, replicate, Option-cases,
  Bool-cases, arith,
}
use mathlib.Core.Path.{subst₂}
use elrond_eth_bridge.Common.Int.{pos}
use elrond_eth_bridge.Common.Bytes.{Bytes, bytes_equal, bytes_equal_iff}
use elrond_eth_bridge.Common.State.{give, ◌>>=◌, or_fail}
use elrond_eth_bridge.Batch.{DepositTransfer, TransferBatch}
use elrond_eth_bridge.Ethereum.Batches.{cached_token, add_deposit}
use elrond_eth_bridge.Ethereum.Batches.Fetched.{Agrees, IsConsistent, cached_same, cached_grows}
use elrond_eth_bridge.Elrond.{Proxy, Client}
use elrond_eth_bridge.Elrond.Pending.{
  set_bytes, parse_uint64_from_byte_slice, empty_response, TransferFields, fields_of, deposit_of,
  create_deposits, pending_batch, create_pending_batch_from_response, get_pending,
}

-- The elements of transfers, one transfer after the other.
abbrev pub elements : List TransferFields → List Bytes
elements [] = []
elements (f ∷ fields) =
    f.block_nonce ∷ f.nonce ∷ f.from ∷ f.to ∷ f.token ∷ f.amount ∷ elements fields

pub parse_cases :
    (bytes : Bytes)
    → ((parse_uint64_from_byte_slice bytes ≡ ok (set_bytes 0 bytes)) × (set_bytes 0 bytes < 2 ^ 64))
      ⊎ (parse_uint64_from_byte_slice bytes ≡ err not_uint64_bytes)
unfolding parse_uint64_from_byte_slice
parse_cases bytes = ground arith

module _ {W : Type 0} (proxy : Proxy W) where
  -- The tokens mapper has answered this converted token for the token, in some state of the world.
  abbrev pub IsConverted : Bytes → Bytes → Type 0
  IsConverted token converted = (w : W) × ((proxy.convert_token token w).0 ≡ ok converted)

  -- One deposit for each transfer, in order: the nonce, which fits a `uint64`, the recipient, the
  -- sender, the token and the amount of the transfer, their texts, and a converted token that the
  -- mapper answered.
  abbrev pub Reads : List TransferFields → List DepositTransfer → Type 0
  Reads [] [] = Unit
  Reads [] (dt ∷ dts) = ⊥
  Reads (f ∷ fields) [] = ⊥
  Reads (f ∷ fields) (dt ∷ dts) =
      (set_bytes 0 f.nonce < 2 ^ 64)
      × (dt ≡ record {
        nonce = set_bytes 0 f.nonce;
        to_bytes = f.to;
        displayable_to = proxy.to_hex_string_with_prefix f.to;
        from_bytes = f.from;
        displayable_from = proxy.to_bech32_string f.from;
        token_bytes = f.token;
        converted_token_bytes = dt.converted_token_bytes;
        displayable_token = proxy.text f.token;
        amount = some (pos (set_bytes 0 f.amount));
      })
      × IsConverted f.token dt.converted_token_bytes
      × Reads fields dts

  -- Every cached token was converted by the mapper.
  AllConverted : List (Bytes × Bytes) → Type 0
  AllConverted cached =
      (token converted : Bytes)
      → cached_token token cached ≡ some converted
      → IsConverted token converted

  no_cached : AllConverted []
  unfolding AllConverted cached_token
  no_cached token converted known = absurd (cc (known))

  converted_grows :
      (token converted : Bytes) (cached : List (Bytes × Bytes))
      → IsConverted token converted
      → AllConverted cached
      → AllConverted ((token, converted) ∷ cached)
  unfolding AllConverted cached_token
  converted_grows token converted cached one all other old known =
      elim (Bool-cases (bytes_equal token other)) [
        | inl e ↦
            subst₂ IsConverted ((bytes_equal_iff token other).0 e) (ground (arith, e, known)) one
        | inr n ↦ all other old (ground (arith, n, known))
      ]

  abbrev pub Creates :
      List TransferFields → List (Bytes × Bytes) → Result (List DepositTransfer) → Type 0
  Creates fields cached (err _) = Unit
  Creates fields cached (ok dts) =
      Reads fields dts
      × IsConsistent dts
      × ((token converted : Bytes)
          → cached_token token cached ≡ some converted
          → Agrees token converted dts)

  add_deposit-Creates :
      (f : TransferFields) (converted : Bytes) (fields : List TransferFields)
      (cached later : List (Bytes × Bytes)) (r : Result (List DepositTransfer))
      → set_bytes 0 f.nonce < 2 ^ 64
      → IsConverted f.token converted
      → cached_token f.token later ≡ some converted
      → ((token old : Bytes)
          → cached_token token cached ≡ some old
          → cached_token token later ≡ some old)
      → Creates fields later r
      → Creates
          (f ∷ fields)
          cached
          (add_deposit (deposit_of proxy (set_bytes 0 f.nonce) f converted) r)
  unfolding deposit_of
  add_deposit-Creates f converted fields cached later (err e) small one hit grows h = tt
  add_deposit-Creates f converted fields cached later (ok dts) small one hit grows
        (reads, consistent, keeps) =
      (
        (small, refl, one, reads),
        (keeps f.token converted hit, consistent),
        λ token old known. ground (
          arith,
          grows token old known,
          keeps token old,
          bytes_equal_iff f.token token,
          Bool-cases (bytes_equal f.token token),
        ),
      )

  create_deposits-Creates :
      (fields : List TransferFields) (cached : List (Bytes × Bytes)) (s : Client W)
      → AllConverted cached
      → Creates fields cached (create_deposits proxy fields cached s).0
  unfolding create_deposits AllConverted
  create_deposits-Creates [] cached s all = (tt, tt, λ token converted known. tt)
  create_deposits-Creates (f ∷ fields) cached s all = elim (parse_cases f.nonce) [
    | inr failed ↦ rw (failed, Creates) tt
    | inl (parsed, small) ↦ elim (Option-cases (cached_token f.token cached)) [
      | inr (converted, hit) ↦
          rw (parsed, hit, Creates)
            (add_deposit-Creates f converted fields cached cached
              (create_deposits proxy fields cached s).0 small (all f.token converted hit) hit
              (λ token old known. known) (create_deposits-Creates fields cached s all))
      | inl miss ↦
          rw (parsed, miss, Creates)
            (one_more small miss (create_deposits-Creates fields)
              (proxy.convert_token f.token s.world).0 refl
              (record s { world = (proxy.convert_token f.token s.world).1 }))
    ]
  ]
    where
      one_more :
          set_bytes 0 f.nonce < 2 ^ 64
          → cached_token f.token cached ≡ none
          → ((later : List (Bytes × Bytes)) (t : Client W)
              → AllConverted later
              → Creates fields later (create_deposits proxy fields later t).0)
          → (r : Result Bytes) → (proxy.convert_token f.token s.world).0 ≡ r
          → (t : Client W)
          → Creates
              (f ∷ fields)
              cached
              (or_fail r
                (λ c. create_deposits proxy fields ((f.token, c) ∷ cached) >>= λ rest.
                  give (add_deposit (deposit_of proxy (set_bytes 0 f.nonce) f c) rest))
                t).0
      one_more small miss ih (err e) answered t = tt
      one_more small miss ih (ok c) answered t =
          add_deposit-Creates f c fields cached ((f.token, c) ∷ cached)
            (create_deposits proxy fields ((f.token, c) ∷ cached) t).0 small (s.world, answered)
            (cached_same f.token c cached) (cached_grows f.token c cached miss)
            (ih ((f.token, c) ∷ cached) t
              (converted_grows f.token c cached (s.world, answered) all))

-- Where their number is right, no element is left over.
elements-fields_of : (rest : List Bytes) → length rest % 6 ≡ 0 → elements (fields_of rest) ≡ rest
unfolding fields_of
elements-fields_of [] h = refl
elements-fields_of (a ∷ []) h = absurd (omega arith)
elements-fields_of (a ∷ b ∷ []) h = absurd (omega arith)
elements-fields_of (a ∷ b ∷ c ∷ []) h = absurd (omega arith)
elements-fields_of (a ∷ b ∷ c ∷ d ∷ []) h = absurd (omega arith)
elements-fields_of (a ∷ b ∷ c ∷ d ∷ e ∷ []) h = absurd (omega arith)
elements-fields_of (a ∷ b ∷ c ∷ d ∷ e ∷ f ∷ rest) h =
    ap (λ l. a ∷ b ∷ c ∷ d ∷ e ∷ f ∷ l) (elements-fields_of rest (omega arith))

-- A batch that is read from an answer.
pub record IsRead {W : Type 0} (proxy : Proxy W) (id : Bytes) (rest : List Bytes)
    (batch : TransferBatch) : Type 0 where
  pub not_empty : rest ≢ []
  pub id_fits : set_bytes 0 id < 2 ^ 64
  pub id_is : batch.id ≡ set_bytes 0 id
  pub all_read : elements (fields_of rest) ≡ rest
  pub deposits_are : Reads proxy (fields_of rest) batch.deposits
  pub consistent : IsConsistent batch.deposits
  pub statuses_are : batch.statuses ≡ replicate (length batch.deposits) 0

module _ {W : Type 0} (proxy : Proxy W) where
  abbrev pub ComesFrom : Result (List Bytes) → Result TransferBatch → Type 0
  ComesFrom response (err _) = Unit
  ComesFrom (ok (id ∷ rest)) (ok batch) = IsRead proxy id rest batch
  ComesFrom (ok []) (ok batch) = ⊥
  ComesFrom (err _) (ok batch) = ⊥

  read_deposits :
      (id : Bytes) (rest : List Bytes) (r : Result (List DepositTransfer)) (t : Client W)
      → rest ≢ []
      → length rest % 6 ≡ 0
      → set_bytes 0 id < 2 ^ 64
      → Creates proxy (fields_of rest) [] r
      → ComesFrom (ok (id ∷ rest)) (or_fail r (pending_batch proxy (set_bytes 0 id)) t).0
  read_deposits id rest (err e) t some_rest six small h = tt
  read_deposits id rest (ok dts) t some_rest six small (reads, consistent, _) = record {
    not_empty = some_rest;
    id_fits = small;
    id_is = refl;
    all_read = elements-fields_of rest six;
    deposits_are = reads;
    consistent = consistent;
    statuses_are = refl;
  }

  create_pending_batch-ComesFrom :
      (response : List Bytes) (s : Client W)
      → ComesFrom (ok response) (create_pending_batch_from_response proxy response s).0
  unfolding create_pending_batch_from_response
  create_pending_batch-ComesFrom [] s = tt
  create_pending_batch-ComesFrom (id ∷ []) s = ground arith
  create_pending_batch-ComesFrom (id ∷ x ∷ xs) s = ground (
    arith,
    parse_cases id,
    read_deposits id (x ∷ xs) (create_deposits proxy (fields_of (x ∷ xs)) [] s).0
        (create_deposits proxy (fields_of (x ∷ xs)) [] s).1,
    create_deposits-Creates proxy (fields_of (x ∷ xs)) [] s (no_cached proxy),
  )

  -- A pending batch that `GetPending` returns was read from a successful answer, which has the ID
  -- and, for each deposit, six elements and nothing else; the ID and the nonces fit a `uint64` and
  -- are read from their bytes, as are the amounts. In the order of the answer, the deposits have the
  -- sender, the recipient, the token and the amount of their third to sixth elements, their nonce is
  -- of the second, and their converted token is one that the tokens mapper answered for that token;
  -- those of one token have one converted token, and each has a status 0.
  pub get_pending-ComesFrom :
      (s : Client W)
      → ComesFrom (proxy.get_current_batch_as_data_bytes s.world).0 (get_pending proxy s).0
  unfolding get_pending
  get_pending-ComesFrom s =
      answered (proxy.get_current_batch_as_data_bytes s.world).0
        (record s { world = (proxy.get_current_batch_as_data_bytes s.world).1 })
    where
      answered :
          (r : Result (List Bytes)) (t : Client W)
          → ComesFrom r
              (or_fail r
                (λ response_data.
                  if empty_response response_data
                  then give (err no_pending_batch_available)
                  else create_pending_batch_from_response proxy response_data)
                t).0
      answered (err e) t = tt
      answered (ok response) t = elim (Bool-cases (empty_response response)) [
        | inl empty ↦ rw (empty, ComesFrom) tt
        | inr full ↦ rw full (create_pending_batch-ComesFrom response t)
      ]
