-- ===== src/Ethereum/Wrappers/Cached.antt =====
-- clients/ethereum/erc20ContractsHolder.go: the balances that come through the holder are those of
-- the contracts.
use elrond_eth_bridge.Common.{
  ◌≡◌, refl, arith, sym, ◌∙◌, ap, Option-cases, All, inl, inr, ◌⊎◌, Result-cases, some, none, List,
  [], ◌∷◌, Result, ok, err,
}
use mathlib.Core.Path.{subst}
use elrond_eth_bridge.Common.Bytes.{Bytes, Bytes-discrete}
use elrond_eth_bridge.Common.Int.{ℤ}
use elrond_eth_bridge.Common.Maps.{lookup, put, lookup-put, lookup-put_other}
use elrond_eth_bridge.Common.State.{State}
use elrond_eth_bridge.Ethereum.Wrappers.{Contracts, ContractsHolder, erc20_balance_of, balance_of}

module _ {C W : Type 0} (on : Contracts C W) where
  open on use {new_generic_erc20}

  -- The balance from a contract that is bound for this question.
  abbrev pub answered : Result C → Bytes → W → Result ℤ × W
  answered (err e) account w = (err e, w)
  answered (ok contract) account w = erc20_balance_of on contract account w

  -- The answers to questions about tokens and accounts, in their order, without a holder and with one.
  abbrev pub asked_directly : List (Bytes × Bytes) → W → List (Result ℤ) × W
  asked_directly [] w = ([], w)
  asked_directly ((token, account) ∷ questions) w =
      let first = answered (new_generic_erc20 token) account w in
      let rest = asked_directly questions first.1 in (first.0 ∷ rest.0, rest.1)

  abbrev pub asked : List (Bytes × Bytes) → State (ContractsHolder C W) (List (Result ℤ))
  asked [] h = ([], h)
  asked ((token, account) ∷ questions) h =
      let first = balance_of on token account h in
      let rest = asked questions first.1 in (first.0 ∷ rest.0, rest.1)

  -- Every contract that is kept is the one bound to its address.
  abbrev pub IsBound : List (Bytes × C) → Type 0
  IsBound contracts =
      (token : Bytes) (contract : C)
      → lookup Bytes-discrete token contracts ≡ some contract
      → new_generic_erc20 token ≡ ok contract

  -- Where the token of a question has a contract, it is kept.
  abbrev pub IsKeptFor : List (Bytes × C) → Bytes × Bytes → Type 0
  IsKeptFor contracts (token, account) =
      (contract : C)
      → new_generic_erc20 token ≡ ok contract
      → lookup Bytes-discrete token contracts ≡ some contract

  abbrev KeepsAll : (before after : List (Bytes × C)) → Type 0
  KeepsAll before after =
      (token : Bytes) (contract : C)
      → lookup Bytes-discrete token before ≡ some contract
      → lookup Bytes-discrete token after ≡ some contract

  balance_of-answered :
      (token account : Bytes) (h : ContractsHolder C W)
      → IsBound h.contracts
      → ((balance_of on token account h).0 ≡ (answered (new_generic_erc20 token) account h.world).0)
        × ((balance_of on token account h).1.world
            ≡ (answered (new_generic_erc20 token) account h.world).1)
  unfolding balance_of
  balance_of-answered token account h bound =
      elim (Option-cases (lookup Bytes-discrete token h.contracts)) [
        | inl absent ↦ ground (arith, absent)
        | inr (contract, kept) ↦ ground (arith, kept, bound token contract kept)
      ]

  put-IsBound :
      (token : Bytes) (contract : C) (contracts : List (Bytes × C))
      → IsBound contracts
      → new_generic_erc20 token ≡ ok contract
      → IsBound (put Bytes-discrete token contract contracts)
  put-IsBound token contract contracts bound is_new other c kept =
      elim (Bytes-discrete token other) [
        | yes e ↦
            ground (arith, e, kept, is_new, lookup-put Bytes-discrete token contract contracts)
        | no n ↦ ground (
          arith,
          kept,
          bound other c,
          lookup-put_other Bytes-discrete token other contract contracts n,
        )
      ]

  put-KeepsAll :
      (token : Bytes) (contract : C) (contracts : List (Bytes × C))
      → lookup Bytes-discrete token contracts ≡ none
      → KeepsAll contracts (put Bytes-discrete token contract contracts)
  put-KeepsAll token contract contracts absent other c kept = elim (Bytes-discrete token other) [
    | yes e ↦
        let at_token : lookup Bytes-discrete token contracts ≡ some c =
          ap (λ (t : Bytes). lookup Bytes-discrete t contracts) e ∙ kept in
        ground (arith, absent, at_token)
    | no n ↦ lookup-put_other Bytes-discrete token other contract contracts n ∙ kept
  ]

  -- What a question does to the contracts that are kept.
  abbrev Changed : Bytes → (before after : List (Bytes × C)) → Type 0
  Changed token before after =
      ((after ≡ before) × ((account : Bytes) → IsKeptFor before (token, account)))
      ⊎ ((contract : C) × (new_generic_erc20 token ≡ ok contract)
          × (lookup Bytes-discrete token before ≡ none)
          × (after ≡ put Bytes-discrete token contract before))

  balance_of-Changed :
      (token account : Bytes) (h : ContractsHolder C W)
      → IsBound h.contracts
      → Changed token h.contracts (balance_of on token account h).1.contracts
  unfolding balance_of
  balance_of-Changed token account h bound =
      elim (Option-cases (lookup Bytes-discrete token h.contracts)) [
        | inr (contract, kept) ↦ inl (
          ground (arith, kept),
          λ _ c is_new. ground (arith, kept, is_new, bound token contract kept),
        )
        | inl absent ↦ elim (Result-cases (new_generic_erc20 token)) [
          | inl (contract, is_new) ↦ inr (contract, is_new, absent, ground (arith, absent, is_new))
          | inr (e, fails) ↦
              inl (ground (arith, absent, fails), λ _ c is_new. ground (arith, fails, is_new))
        ]
      ]

  Changed-IsBound :
      (token account : Bytes) (before after : List (Bytes × C))
      → IsBound before
      → Changed token before after
      → IsBound after × KeepsAll before after × IsKeptFor after (token, account)
  Changed-IsBound token account before after bound (inl (same, kept)) = (
    subst IsBound (sym same) bound,
    subst (KeepsAll before) (sym same) (λ t c h. h),
    subst (λ cs. IsKeptFor cs (token, account)) (sym same) (kept account),
  )
  Changed-IsBound token account before after bound (inr (contract, is_new, absent, same)) = (
    subst IsBound (sym same) (put-IsBound token contract before bound is_new),
    subst (KeepsAll before) (sym same) (put-KeepsAll token contract before absent),
    λ c is. ground (arith, same, is, is_new, lookup-put Bytes-discrete token contract before),
  )

  asked-KeepsAll :
      (questions : List (Bytes × Bytes)) (h : ContractsHolder C W)
      → IsBound h.contracts
      → IsBound (asked questions h).1.contracts
        × KeepsAll h.contracts (asked questions h).1.contracts
  asked-KeepsAll [] h bound = (bound, λ t c kept. kept)
  asked-KeepsAll ((token, account) ∷ questions) h bound =
      let changed = balance_of-Changed token account h bound in
      let first =
        Changed-IsBound token account h.contracts (balance_of on token account h).1.contracts bound
          changed in
      let rest = asked-KeepsAll questions (balance_of on token account h).1 first.0 in
      (rest.0, λ t c kept. rest.1 t c (first.1 t c kept))

  -- The answers, the world, and the contracts that are kept, after questions through a holder.
  pub record AsksThrough (questions : List (Bytes × Bytes)) (h : ContractsHolder C W) : Type 0 where
    pub answers : (asked questions h).0 ≡ (asked_directly questions h.world).0
    pub world : (asked questions h).1.world ≡ (asked_directly questions h.world).1
    pub bound : IsBound (asked questions h).1.contracts
    pub kept : All (IsKeptFor (asked questions h).1.contracts) questions

  -- A holder of contracts that are each bound to their address, as the new one is, answers every
  -- sequence of questions about balances as contracts do that are bound for each question anew: the
  -- answers and the world after them are the same, an address whose contract cannot be bound included.
  -- The holder then keeps contracts that are bound to their addresses only, and one for each token of
  -- a question that has a contract.
  pub asked-AsksThrough :
      (questions : List (Bytes × Bytes)) (h : ContractsHolder C W)
      → IsBound h.contracts
      → AsksThrough questions h
  asked-AsksThrough [] h bound = record { answers = refl; world = refl; bound = bound; kept = tt }
  asked-AsksThrough ((token, account) ∷ questions) h bound =
      let after = (balance_of on token account h).1 in
      let one = balance_of-answered token account h bound in
      let first =
        Changed-IsBound token account h.contracts after.contracts bound
          (balance_of-Changed token account h bound) in
      let rest = asked-AsksThrough questions after first.0 in
      let keeps = asked-KeepsAll questions after first.0 in
      record {
        answers =
            ap (λ (r : Result ℤ). r ∷ (asked questions after).0) one.0
            ∙ ap
                (λ (rs : List (Result ℤ)).
                  (answered (new_generic_erc20 token) account h.world).0 ∷ rs)
                (rest.answers ∙ ap (λ (w : W). (asked_directly questions w).0) one.1);
        world = rest.world ∙ ap (λ (w : W). (asked_directly questions w).1) one.1;
        bound = rest.bound;
        kept = (λ c is. keeps.1 token c (first.2 c is), rest.kept);
      }
