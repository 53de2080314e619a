-- ===== src/Batch/Resolve.antt =====
-- What `ResolveNewDeposits` and `Clone` of clients/batch.go leave behind.
use mathlib.Core.List.{append-nil, append_assoc}
use native.Mathlib.Numerals.{add-one}
use elrond_eth_bridge.Common.{
  ℕ, zero, suc, ◌+◌, ◌-◌, ◌≤◌, ◌<◌, min, max, ◌≡◌, refl, sym, ap, ◌∙◌, inl, inr, List, [], ◌∷◌,
  ◌++◌, none, some, Option, map, length, set, take, replicate, arith, ltb, ◌==◌, Bool-cases, ==_iff,
  All, ◌≢◌, tests, length-append, length-set, length-replicate, length-take, take-set_self,
  take_all,
}
use elrond_eth_bridge.Common.Int.{ℤ}
use elrond_eth_bridge.Batch.{
  Bytes, rejected, DepositTransfer, TransferBatch, copy_bytes, clone_amount, clone_deposit, clone,
  reject_from, append_rejected, resolve_new_deposits,
}

reject_from_lem :
    (r i : ℕ) (ss : Bytes)
    → i + r ≡ length ss
    → reject_from r i ss ≡ take i ss ++ replicate r rejected
unfolding reject_from
reject_from_lem zero i ss h = sym (append-nil _ ∙ take_all i ss (omega arith))
reject_from_lem (suc r) i ss h =
    rw (reject_from_lem r (i + 1) (set ss i rejected) (omega (arith, length-set ss i rejected))) (
      rw add-one (
        rw (take-set_self ss i rejected (omega arith))
          (append_assoc (take i ss) (rejected ∷ []) _)))

append_rejected_lem :
    (r n : ℕ) (ss : Bytes)
    → n ≤ r + length ss
    → append_rejected r n ss ≡ ss ++ replicate (n - length ss) rejected
unfolding append_rejected
append_rejected_lem zero n ss h =
    let e : n - length ss ≡ 0 = omega arith in rw e (sym (append-nil ss))
append_rejected_lem (suc r) n ss h = elim (Bool-cases (ltb (length ss) n)) [
  | inl more ↦
      let e : n - length ss ≡ suc (n - (length ss + 1)) = omega (tests, more) in
      rw
        (
          more,
          append_rejected_lem r n (ss ++ rejected ∷ [])
              (omega (arith, length-append ss (rejected ∷ []))),
          length-append ss (rejected ∷ []),
          e,
        )
        (append_assoc ss (rejected ∷ []) _)
  | inr done ↦ let e : n - length ss ≡ 0 = ground arith in rw (done, e) (sym (append-nil ss))
]

-- The statuses that a correct resolution leaves: the old ones as far as both counts go, and
-- `Rejected` up to the larger count.
abbrev pub resolved : ℕ → Bytes → Bytes
resolved n ss =
    take (min n (length ss)) ss ++ replicate (max n (length ss) - min n (length ss)) rejected

resolved-eq : (n : ℕ) (ss : Bytes) → n ≡ length ss → resolved n ss ≡ ss
resolved-eq n ss h =
    let e : max n (length ss) - min n (length ss) ≡ 0 = omega arith in
    rw e (append-nil _ ∙ take_all (min n (length ss)) ss (omega arith))

resolved-le :
    (n : ℕ) (ss : Bytes)
    → n ≤ length ss
    → resolved n ss ≡ take n ss ++ replicate (length ss - n) rejected
resolved-le n ss h =
    let e : max n (length ss) - min n (length ss) ≡ length ss - n = omega arith in
    let m : min n (length ss) ≡ n = omega arith in rw (e, m)

resolved-lt :
    (n : ℕ) (ss : Bytes) → length ss < n → resolved n ss ≡ ss ++ replicate (n - length ss) rejected
resolved-lt n ss h =
    let e : max n (length ss) - min n (length ss) ≡ n - length ss = omega arith in
    rw (e, take_all (min n (length ss)) ss (omega arith))

loops-eq-resolved :
    (n : ℕ) (ss : Bytes) → append_rejected n n (reject_from (length ss - n) n ss) ≡ resolved n ss
unfolding reject_from
loops-eq-resolved n ss = elim (Bool-cases (ltb (length ss) n)) [
  | inl more ↦
      let short : length ss < n = omega (tests, more) in
      let e : length ss - n ≡ 0 = omega arith in
      rw (e, resolved-lt n ss short) (append_rejected_lem n n ss (omega arith))
  | inr done ↦
      let long : n ≤ length ss = ground arith in
      let split = reject_from_lem (length ss - n) n ss (omega arith) in
      let kept = take n ss ++ replicate (length ss - n) rejected in
      let none_left : n - length kept ≡ 0 = omega (
        arith,
        length-append (take n ss) (replicate (length ss - n) rejected),
        length-take n ss,
        length-replicate (length ss - n) rejected,
      ) in
      rw (split, resolved-le n ss long)
        (rw (append_rejected_lem n n kept (omega arith), none_left) (append-nil kept))
]

-- After `ResolveNewDeposits n` the first statuses, as many as both counts allow, are the old ones,
-- and every other status, up to the larger of the two counts, is `Rejected`; the batch ID and the
-- deposits are unchanged.
pub resolve_new_deposits_lem :
    (n : ℕ) (tb : TransferBatch)
    → resolve_new_deposits n tb ≡ record tb { statuses = resolved n tb.statuses }
unfolding resolve_new_deposits
resolve_new_deposits_lem n tb = elim (Bool-cases (n == length tb.statuses)) [
  | inl same ↦ rw (same, resolved-eq n tb.statuses ((==_iff _ _).0 same))
  | inr differ ↦ rw (differ, loops-eq-resolved n tb.statuses)
]

-- The number of statuses after `ResolveNewDeposits n` is the larger of the old number and `n`.
pub length-resolved : (n : ℕ) (ss : Bytes) → length (resolved n ss) ≡ max n (length ss)
length-resolved n ss = omega (
  arith,
  length-append (take (min n (length ss)) ss)
      (replicate (max n (length ss) - min n (length ss)) rejected),
  length-take (min n (length ss)) ss,
  length-replicate (max n (length ss) - min n (length ss)) rejected,
)

copy_bytes-eq : (bs : Bytes) → copy_bytes bs ≡ bs
unfolding copy_bytes
copy_bytes-eq [] = refl
copy_bytes-eq (b ∷ bs) = ap (◌∷◌ b) (copy_bytes-eq bs)

-- A deposit whose amount is not nil.
abbrev pub HasAmount : DepositTransfer → Type 0
HasAmount dt = dt.amount ≢ none

clone_amount-eq : (a : Option ℤ) → a ≢ none → clone_amount a ≡ a
clone_amount-eq none h = absurd (h refl)
clone_amount-eq (some a) h = refl

clone_deposit-eq : (dt : DepositTransfer) → HasAmount dt → clone_deposit dt ≡ dt
unfolding clone_deposit
clone_deposit-eq dt h = cc (
  clone_amount-eq dt.amount h,
  copy_bytes-eq dt.to_bytes,
  copy_bytes-eq dt.from_bytes,
  copy_bytes-eq dt.token_bytes,
  copy_bytes-eq dt.converted_token_bytes,
)

map-clone_deposit : (ds : List DepositTransfer) → All HasAmount ds → map clone_deposit ds ≡ ds
map-clone_deposit [] h = refl
map-clone_deposit (d ∷ ds) h = cc (clone_deposit-eq d h.0, map-clone_deposit ds h.1)

-- The clone of a batch none of whose amounts is nil is the batch.
clone-eq : (tb : TransferBatch) → All HasAmount tb.deposits → clone tb ≡ tb
unfolding clone
clone-eq tb h = rw (map-clone_deposit tb.deposits h, copy_bytes-eq tb.statuses)

pub resolve_new_deposits-id : (n : ℕ) (tb : TransferBatch) → (resolve_new_deposits n tb).id ≡ tb.id
resolve_new_deposits-id n tb = rw (resolve_new_deposits_lem n tb)
