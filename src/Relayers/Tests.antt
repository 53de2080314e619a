-- ===== src/Relayers/Tests.antt =====
-- Three relayers, and the theorems on them at concrete inputs.
use elrond_eth_bridge.Common.{
  ◌≡◌, ◌↔◌, inl, refl, true, some, List, [], ◌∷◌, Bool, Elem, ok, err, length, take, ltb, arith,
  invalid_address_bytes,
}
use elrond_eth_bridge.Common.Bytes.{Bytes, bytes_equal}
use elrond_eth_bridge.Common.Uint.{put_uint64, get_uint64}
use elrond_eth_bridge.Relayers.{
  bytes_less, add_address, process_addresses, process_results, insert, sorted_public_keys, Crypto,
  verify_eth_signature, random_int, my_turn_at,
}
use elrond_eth_bridge.Relayers.Whitelist.{
  Stores, process_results-Stores, sorted_public_keys_agree, verify_eth_signature_iff,
}
use elrond_eth_bridge.Relayers.Leader.{my_turn_at-leader}

abbrev mine : List Bytes
mine = (3 ∷ []) ∷ (1 ∷ 2 ∷ []) ∷ (1 ∷ []) ∷ []

abbrev theirs : List Bytes
theirs = (1 ∷ []) ∷ (3 ∷ []) ∷ (1 ∷ 2 ∷ []) ∷ []

abbrev has_bytes : Bytes → Bool
has_bytes a = ltb 0 (length a)

fetched :
    process_results has_bytes ((3 ∷ []) ∷ (1 ∷ 2 ∷ []) ∷ (3 ∷ []) ∷ (1 ∷ []) ∷ []) []
    ≡ (ok tt, mine)
unfolding process_results process_addresses add_address bytes_equal
fetched = refl

refused : process_results has_bytes ((3 ∷ []) ∷ [] ∷ []) mine ≡ (err invalid_address_bytes, mine)
unfolding process_results process_addresses add_address bytes_equal
refused = refl

sorted : sorted_public_keys mine ≡ (1 ∷ []) ∷ (1 ∷ 2 ∷ []) ∷ (3 ∷ []) ∷ []
unfolding sorted_public_keys insert bytes_less
sorted = refl

-- With a hash that changes nothing, the turns rotate: at 25 seconds of 10 each, it is the third.
third_leads :
    my_turn_at
      (λ b. b)
      25
      (record { whitelisted_addresses = mine; interval_for_leader = 10; address_bytes = 3 ∷ [] })
    ≡ some true
unfolding my_turn_at sorted_public_keys insert bytes_less random_int put_uint64 get_uint64
    bytes_equal
third_leads = refl

process_results-Stores_example :
    Stores has_bytes theirs mine
      (process_results has_bytes theirs mine).0
      (process_results has_bytes theirs mine).1
process_results-Stores_example = process_results-Stores has_bytes theirs mine

sorted_public_keys_agree_example : sorted_public_keys mine ≡ sorted_public_keys theirs
sorted_public_keys_agree_example =
    sorted_public_keys_agree mine theirs (ground arith) (ground arith) (λ a. ground arith)

my_turn_at-leader_example :
    (leader : Bytes) × Elem leader mine
    × ((own : Bytes)
        → my_turn_at
            (λ b. b)
            25
            (record { whitelisted_addresses = mine; interval_for_leader = 10; address_bytes = own })
          ≡ some (bytes_equal leader own))
my_turn_at-leader_example = my_turn_at-leader (λ b. b) 25 10 (3 ∷ []) mine (inl refl) (omega arith)

abbrev crypto : Crypto
crypto = record {
  ecrecover = λ hash sig. ok sig;
  address_of = λ pk. ok (take 1 pk);
  verify_signature = λ pk hash sig. bytes_equal hash sig;
}

verify_eth_signature_example :
    (verify_eth_signature crypto mine (3 ∷ 8 ∷ []) (3 ∷ 8 ∷ []) ≡ ok tt) ↔ (
      Elem (3 ∷ []) mine
      × (crypto.verify_signature (3 ∷ 8 ∷ []) (3 ∷ 8 ∷ []) (take 64 (3 ∷ 8 ∷ [])) ≡ true))
verify_eth_signature_example =
    verify_eth_signature_iff crypto mine (3 ∷ 8 ∷ []) (3 ∷ 8 ∷ []) (3 ∷ 8 ∷ []) (3 ∷ []) refl refl
