-- ===== src/Relayers/Whitelist.antt =====
-- The stored addresses of clients/roleProviders: what is fetched, and who is on the white list.
use elrond_eth_bridge.Common.{
  take_all, ◌≡◌, ◌↔◌, ◌⊎◌, inl, inr, refl, Bool, true, List, [], ◌∷◌, All, Elem, Result, ok, err,
  take, arith, Bool-cases,
}
use elrond_eth_bridge.Common.Bytes.{Bytes, bytes_equal_iff}
use elrond_eth_bridge.Relayers.{
  add_address, is_whitelisted, process_addresses, process_results, sorted_public_keys, Crypto,
  verify_eth_signature,
}
use elrond_eth_bridge.Relayers.Order.{
  AreDistinct, sorted_lists_agree, sorted_public_keys-IsSorted, Elem-sorted_public_keys,
}

Elem-add_address : (a x : Bytes) (l : List Bytes) → Elem a (add_address x l) ↔ ((a ≡ x) ⊎ Elem a l)
unfolding add_address
Elem-add_address a x [] = ground arith
Elem-add_address a x (y ∷ l) = ground (arith, bytes_equal_iff y x, Elem-add_address a x l)

add_address-AreDistinct :
    (x : Bytes) (l : List Bytes) → AreDistinct l → AreDistinct (add_address x l)
unfolding add_address
add_address-AreDistinct x [] h = (λ e. e, tt)
add_address-AreDistinct x (y ∷ l) h =
    ground (arith, bytes_equal_iff y x, Elem-add_address y x l, add_address-AreDistinct x l h.1)

-- What the loop of `processResults` leaves.
abbrev Collects : (Bytes → Bool) → List Bytes → List Bytes → Result (List Bytes) → Type 0
Collects is_valid results start (err _) = ¬ All (λ a. is_valid a ≡ true) results
Collects is_valid results start (ok l) =
    All (λ a. is_valid a ≡ true) results
    × AreDistinct l
    × ((a : Bytes) → Elem a l ↔ (Elem a results ⊎ Elem a start))

process_addresses-Collects :
    (is_valid : Bytes → Bool) (results start : List Bytes)
    → AreDistinct start
    → Collects is_valid results start (process_addresses is_valid results start)
unfolding process_addresses
process_addresses-Collects is_valid [] start h = (tt, h, λ a. ground arith)
process_addresses-Collects is_valid (x ∷ results) start h = elim (Bool-cases (is_valid x)) [
  | inl valid ↦
      rw (valid, Collects)
        (one_more valid (process_addresses is_valid results (add_address x start)) (
          process_addresses-Collects is_valid results (add_address x start)
            (add_address-AreDistinct x start h)))
  | inr invalid ↦ rw (invalid, Collects) (λ all. ground (arith, all.0))
]
  where
    one_more :
        is_valid x ≡ true
        → (r : Result (List Bytes)) → Collects is_valid results (add_address x start) r
        → Collects is_valid (x ∷ results) start r
    one_more valid (err e) k = λ all. k all.1
    one_more valid (ok l) (all, distinct, same) =
        ((valid, all), distinct, λ a. ground (arith, same a, Elem-add_address a x start))

-- After a successful fetch the stored addresses are exactly the fetched ones, each once and each
-- valid; a failed fetch, or one with an invalid address, leaves the stored addresses.
abbrev pub Stores :
    (Bytes → Bool) → List Bytes → List Bytes → Result (Unit {0}) → List Bytes → Type 0
Stores is_valid results stored (err _) l = (¬ All (λ a. is_valid a ≡ true) results) × (l ≡ stored)
Stores is_valid results stored (ok _) l =
    All (λ a. is_valid a ≡ true) results × AreDistinct l × ((a : Bytes) → Elem a l ↔ Elem a results)

-- Fetched addresses replace the stored ones when all are valid: then exactly the fetched ones are
-- stored, each once. With an address that is not valid, the stored addresses stay.
pub process_results-Stores :
    (is_valid : Bytes → Bool) (results stored : List Bytes)
    → Stores is_valid results stored
        (process_results is_valid results stored).0
        (process_results is_valid results stored).1
unfolding process_results
process_results-Stores is_valid results stored =
    by_result (process_addresses is_valid results [])
      (process_addresses-Collects is_valid results [] tt)
  where
    by_result :
        (r : Result (List Bytes))
        → Collects is_valid results [] r
        → let after = elim r as (λ _. Result (Unit {0}) × List Bytes) [
          | err e ↦ (err e, stored)
          | ok addresses ↦ (ok tt, addresses)
        ] in
          Stores is_valid results stored after.0 after.1
    by_result (err e) h = (h, refl)
    by_result (ok l) (all, distinct, same) = (all, distinct, λ a. ground (arith, same a))

pub is_whitelisted_iff : (a : Bytes) (l : List Bytes) → (is_whitelisted a l ≡ true) ↔ Elem a l
unfolding is_whitelisted
is_whitelisted_iff a [] = ground arith
is_whitelisted_iff a (x ∷ l) = ground (arith, bytes_equal_iff x a, is_whitelisted_iff a l)

-- Two relayers whose providers stored the same addresses, in whatever order they were fetched, have
-- the same list of sorted public keys.
pub sorted_public_keys_agree :
    (mine theirs : List Bytes)
    → AreDistinct mine
    → AreDistinct theirs
    → ((a : Bytes) → Elem a mine ↔ Elem a theirs)
    → sorted_public_keys mine ≡ sorted_public_keys theirs
sorted_public_keys_agree mine theirs hm ht same =
    sorted_lists_agree (sorted_public_keys mine) (sorted_public_keys theirs)
      (sorted_public_keys-IsSorted mine hm) (sorted_public_keys-IsSorted theirs ht)
      λ a. ground (arith, same a, Elem-sorted_public_keys a mine, Elem-sorted_public_keys a theirs)

-- A signature is accepted exactly when the address recovered from it is on the white list and its
-- first 64 bytes verify under the recovered key.
pub verify_eth_signature_iff :
    (crypto : Crypto) (whitelisted : List Bytes) (signature message_hash pk_bytes address : Bytes)
    → crypto.ecrecover message_hash signature ≡ ok pk_bytes
    → crypto.address_of pk_bytes ≡ ok address
    → (verify_eth_signature crypto whitelisted signature message_hash ≡ ok tt) ↔ (
        Elem address whitelisted
        × (crypto.verify_signature pk_bytes message_hash (take 64 signature) ≡ true))
unfolding verify_eth_signature
verify_eth_signature_iff crypto whitelisted signature message_hash pk_bytes address recovered
      known =
    grind (arith, recovered, known, is_whitelisted_iff address whitelisted, take_all 64 signature)
