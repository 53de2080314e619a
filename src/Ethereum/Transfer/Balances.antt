-- ===== src/Ethereum/Transfer/Balances.antt =====
-- What is known after the checks of the balances in clients/ethereum/client.go.
use mathlib.Core.Path.{subst, sym}
use elrond_eth_bridge.Common.{
  ◌≡◌, ◌∙◌, ◌⊎◌, inl, inr, refl, Bool, true, false, some, List, [], ◌∷◌, Result, ok, err,
  insufficient_erc20_balance, length, Elem, arith,
}
use elrond_eth_bridge.Common.Bytes.{Bytes}
use elrond_eth_bridge.Common.Int.{ℤ, ltb_ℤ, ◌≤ℤ◌}
use elrond_eth_bridge.Common.Panic.{Run, pure, or_return, Returns, Returns-mono, Returns->>=}
use elrond_eth_bridge.Ethereum.{
  Chain, Call, paused, safe_balance, relayer_balance, transaction_sent, Client, ask_recorded,
}
use elrond_eth_bridge.Ethereum.Transfer.{
  add_transfer, cumulate, get_cumulated_transfers, check_cumulated_transfers,
  check_available_tokens, check_relayer_funds_for_fee,
}

-- The log has answers, one or more, on top of an older log.
abbrev pub Above : List Call → List Call → Type 0
Above before [] = ⊥
Above before (paused _ ∷ calls) = (calls ≡ before) ⊎ Above before calls
Above before (safe_balance _ _ ∷ calls) = (calls ≡ before) ⊎ Above before calls
Above before (relayer_balance _ ∷ calls) = (calls ≡ before) ⊎ Above before calls
Above before (transaction_sent _ ∷ calls) = ⊥

-- Nothing but answers was added to a log.
abbrev pub Adds : List Call → List Call → Type 0
Adds before after = (after ≡ before) ⊎ Above before after

on_top :
    (first second calls : List Call)
    → Adds first second
    → (calls ≡ second) ⊎ Above first calls
    → (calls ≡ first) ⊎ Above first calls
on_top first second calls h (inr above) = inr above
on_top first second calls (inl same) (inl e) = inl (e ∙ same)
on_top first second calls (inr above) (inl e) = inr (subst (Above first) (sym e) above)

Above-trans :
    (first second third : List Call) → Adds first second → Above second third → Above first third
Above-trans first second [] h k = absurd k
Above-trans first second (paused _ ∷ calls) h (inl e) = on_top first second calls h (inl e)
Above-trans first second (paused _ ∷ calls) h (inr k) = inr (Above-trans first second calls h k)
Above-trans first second (safe_balance _ _ ∷ calls) h (inl e) = on_top first second calls h (inl e)
Above-trans first second (safe_balance _ _ ∷ calls) h (inr k) =
    inr (Above-trans first second calls h k)
Above-trans first second (relayer_balance _ ∷ calls) h (inl e) = on_top first second calls h (inl e)
Above-trans first second (relayer_balance _ ∷ calls) h (inr k) =
    inr (Above-trans first second calls h k)
Above-trans first second (transaction_sent _ ∷ calls) h k = absurd k

pub Adds-trans :
    (first second third : List Call) → Adds first second → Adds second third → Adds first third
Adds-trans first second third h (inl e) = subst (Adds first) (sym e) h
Adds-trans first second third h (inr k) = inr (Above-trans first second third h k)

-- No answer is lost.
Above-keeps :
    (before after : List Call) (c : Call) → Above before after → Elem c before → Elem c after
Above-keeps before [] c h e = absurd h
Above-keeps before (paused _ ∷ calls) c (inl same) e = inr (subst (Elem c) (sym same) e)
Above-keeps before (paused _ ∷ calls) c (inr h) e = inr (Above-keeps before calls c h e)
Above-keeps before (safe_balance _ _ ∷ calls) c (inl same) e = inr (subst (Elem c) (sym same) e)
Above-keeps before (safe_balance _ _ ∷ calls) c (inr h) e = inr (Above-keeps before calls c h e)
Above-keeps before (relayer_balance _ ∷ calls) c (inl same) e = inr (subst (Elem c) (sym same) e)
Above-keeps before (relayer_balance _ ∷ calls) c (inr h) e = inr (Above-keeps before calls c h e)
Above-keeps before (transaction_sent _ ∷ calls) c h e = absurd h

pub Adds-keeps :
    (before after : List Call) (c : Call) → Adds before after → Elem c before → Elem c after
Adds-keeps before after c (inl same) e = subst (Elem c) (sym same) e
Adds-keeps before after c (inr h) e = Above-keeps before after c h e

-- The relayer was seen to have the fee.
abbrev pub HasFee : ℤ → List Call → Type 0
HasFee fee [] = ⊥
HasFee fee (relayer_balance balance ∷ calls) = (fee ≤ℤ balance) ⊎ HasFee fee calls
HasFee fee (paused _ ∷ calls) = HasFee fee calls
HasFee fee (safe_balance _ _ ∷ calls) = HasFee fee calls
HasFee fee (transaction_sent _ ∷ calls) = HasFee fee calls

-- The safe was seen to have the value that each token needs.
abbrev pub Funded : List (Bytes × ℤ) → List Call → Type 0
Funded [] calls = Unit
Funded ((token, value) ∷ transfers) calls =
    ((balance : ℤ) × Elem (safe_balance token balance) calls × (value ≤ℤ balance))
    × Funded transfers calls

pub Funded-mono :
    (transfers : List (Bytes × ℤ)) (before after : List Call)
    → ((c : Call) → Elem c before → Elem c after)
    → Funded transfers before
    → Funded transfers after
Funded-mono [] before after grow h = tt
Funded-mono ((token, value) ∷ transfers) before after grow ((balance, seen, enough), rest) = (
  (balance, grow (safe_balance token balance) seen, enough),
  Funded-mono transfers before after grow rest,
)

module _ {W : Type 0} where
  -- No transaction was sent, and nothing but the world and the answers changed.
  pub record IsQuiet (s t : Client W) : Type 0 where
    pub only_answers : Adds s.calls t.calls
    pub holder_kept : t.signature_holder ≡ s.signature_holder
    pub base_kept : t.transfer_gas_limit_base ≡ s.transfer_gas_limit_base
    pub each_kept : t.transfer_gas_limit_for_each ≡ s.transfer_gas_limit_for_each

  pub IsQuiet-trans : (s t u : Client W) → IsQuiet s t → IsQuiet t u → IsQuiet s u
  IsQuiet-trans s t u h k = record {
    only_answers = Adds-trans s.calls t.calls u.calls h.only_answers k.only_answers;
    holder_kept = k.holder_kept ∙ h.holder_kept;
    base_kept = k.base_kept ∙ h.base_kept;
    each_kept = k.each_kept ∙ h.each_kept;
  }

  IsQuiet-after :
      (c : Call) (w : W) (s t : Client W)
      → Adds s.calls (c ∷ s.calls)
      → IsQuiet (record s { world = w; calls = c ∷ s.calls }) t
      → IsQuiet s t
  IsQuiet-after c w s t quiet h = record {
    only_answers = Adds-trans s.calls (c ∷ s.calls) t.calls quiet h.only_answers;
    holder_kept = h.holder_kept;
    base_kept = h.base_kept;
    each_kept = h.each_kept;
  }

  abbrev pub Paid : List (Bytes × ℤ) → Client W → Result (Unit {0}) → Client W → Type 0
  Paid transfers s (ok _) t = IsQuiet s t × Funded transfers t.calls
  Paid transfers s (err _) t = IsQuiet s t

  -- One more balance, which is enough.
  Paid-cons :
      (token : Bytes) (value balance : ℤ) (transfers : List (Bytes × ℤ)) (s : Client W) (w : W)
      (r : Result (Unit {0})) (t : Client W)
      → ltb_ℤ balance value ≡ false
      → Paid transfers (record s { world = w; calls = safe_balance token balance ∷ s.calls }) r t
      → Paid ((token, value) ∷ transfers) s r t
  Paid-cons token value balance transfers s w (err e) t enough h =
      IsQuiet-after (safe_balance token balance) w s t (inr (inl refl)) h
  Paid-cons token value balance transfers s w (ok _) t enough (quiet, funded) = (
    IsQuiet-after (safe_balance token balance) w s t (inr (inl refl)) quiet,
    (
      (
        balance,
        Adds-keeps (safe_balance token balance ∷ s.calls) t.calls (safe_balance token balance)
            quiet.only_answers (inl refl),
        ground arith,
      ),
      funded,
    ),
  )

  abbrev asked : Call → W → Client W → Client W
  asked c w s = record s { world = w; calls = c ∷ s.calls }

  -- What is known once the balance of a token was asked for.
  Balance : Bytes → W → Client W → Result ℤ → Client W → Type 0
  Balance token w s (err _) t = IsQuiet s t
  Balance token w s (ok balance) t = t ≡ asked (safe_balance token balance) w s

  abbrev pub FeePaid : ℤ → Client W → Result (Unit {0}) → Client W → Type 0
  FeePaid fee s (ok _) t = IsQuiet s t × HasFee fee t.calls
  FeePaid fee s (err _) t = IsQuiet s t

cumulate-some :
    (tokens : List Bytes) (amounts : List ℤ) (transfers : List (Bytes × ℤ))
    → length tokens ≡ length amounts
    → (result : List (Bytes × ℤ)) × (cumulate tokens amounts transfers ≡ some result)
unfolding cumulate
cumulate-some [] amounts transfers same = (transfers, refl)
cumulate-some (token ∷ tokens) [] transfers same = absurd (omega arith)
cumulate-some (token ∷ tokens) (amount ∷ amounts) transfers same =
    cumulate-some tokens amounts (add_transfer token amount transfers) (omega arith)

pub get_cumulated-some :
    (tokens : List Bytes) (amounts : List ℤ)
    → length tokens ≡ length amounts
    → (result : List (Bytes × ℤ)) × (get_cumulated_transfers tokens amounts ≡ some result)
unfolding get_cumulated_transfers
get_cumulated-some tokens amounts same = cumulate-some tokens amounts [] same

module _ {W : Type 0} (chain : Chain W) where
  -- The code of one round after the balance.
  abbrev compare_balance : ℤ → List (Bytes × ℤ) → Result ℤ → Run (Client W) (Result (Unit {0}))
  compare_balance value transfers r = or_return r λ existing_balance.
      elim (ltb_ℤ existing_balance value) [
        | true ↦ pure (err insufficient_erc20_balance)
        | false ↦ check_cumulated_transfers chain transfers
      ]

  compare_balance-Paid :
      (token : Bytes) (value : ℤ) (transfers : List (Bytes × ℤ)) (w : W) (s : Client W)
      → ((u : Client W) → Returns (Paid transfers u) (check_cumulated_transfers chain transfers u))
      → (r : Result ℤ) (t : Client W) → Balance token w s r t
      → Returns (Paid ((token, value) ∷ transfers) s) (compare_balance value transfers r t)
  unfolding Balance
  compare_balance-Paid token value transfers w s ih (err e) t h = h
  compare_balance-Paid token value transfers w s ih (ok balance) t h =
      rw h (enough_or_low (ltb_ℤ balance value) refl)
    where
      enough_or_low :
          (low : Bool)
          → ltb_ℤ balance value ≡ low
          → Returns (Paid ((token, value) ∷ transfers) s) (
              (elim low as (λ _. Run (Client W) (Result (Unit {0}))) [
                | true ↦ pure (err insufficient_erc20_balance)
                | false ↦ check_cumulated_transfers chain transfers
              ])
                (asked (safe_balance token balance) w s))
      enough_or_low true low = ground arith
      enough_or_low false enough =
          Returns-mono (Paid transfers (asked (safe_balance token balance) w s))
            (Paid ((token, value) ∷ transfers) s)
            (check_cumulated_transfers chain transfers (asked (safe_balance token balance) w s))
            (ih (asked (safe_balance token balance) w s))
            λ r t. Paid-cons token value balance transfers s w r t enough

  check_cumulated-Paid :
      (transfers : List (Bytes × ℤ)) (s : Client W)
      → Returns (Paid transfers s) (check_cumulated_transfers chain transfers s)
  unfolding check_cumulated_transfers Balance
  check_cumulated-Paid [] s = ground arith
  check_cumulated-Paid ((token, value) ∷ transfers) s =
      Returns->>= (Balance token (chain.balance_of token s.safe_contract_address s.world).1 s)
        (Paid ((token, value) ∷ transfers) s)
        (ask_recorded (chain.balance_of token s.safe_contract_address) (safe_balance token))
        (compare_balance value transfers) s (ground arith)
        (compare_balance-Paid token value transfers
          (chain.balance_of token s.safe_contract_address s.world).1 s
          (check_cumulated-Paid transfers))

  pub check_relayer_funds-FeePaid :
      (fee : ℤ) (s : Client W) → Returns (FeePaid fee s) (check_relayer_funds_for_fee chain fee s)
  unfolding check_relayer_funds_for_fee
  check_relayer_funds-FeePaid fee s = ground arith

  pub check_available-Paid :
      (tokens : List Bytes) (amounts : List ℤ) (transfers : List (Bytes × ℤ)) (s : Client W)
      → get_cumulated_transfers tokens amounts ≡ some transfers
      → Returns (Paid transfers s) (check_available_tokens chain tokens amounts s)
  unfolding check_available_tokens
  check_available-Paid tokens amounts transfers s found =
      rw found (check_cumulated-Paid transfers s)
