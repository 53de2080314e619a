-- ===== src/Relayers.antt =====
-- clients/roleProviders and bridges/ethElrond/topology: who the relayers are, and whose turn it is.
-- A set of addresses is a list in the order of insertion; sort.Slice is an insertion sort.
pub mod Order
pub mod Leader
pub mod Whitelist
mod Tests
use elrond_eth_bridge.Common.{
  ℕ, ◌/◌, ◌%◌, ◌<◌, Bool, true, false, Option, some, none, List, [], ◌∷◌, Result, ok, err, Error,
  length, get_elem?, take, ltb, ◌==◌, if◌then◌else◌, invalid_address_bytes,
  address_is_not_whitelisted, invalid_signature, invalid_interval_for_leader, empty_address,
}
use elrond_eth_bridge.Common.Bytes.{Bytes, bytes_equal}
use elrond_eth_bridge.Common.Int.{ℤ, pos, leb_ℤ, pos_part}
use elrond_eth_bridge.Common.Uint.{put_uint64, get_uint64}

-- `bytes.Compare(a, b) < 0`
unfoldable pub bytes_less : Bytes → Bytes → Bool
bytes_less [] [] = false
bytes_less [] (y ∷ ys) = true
bytes_less (x ∷ xs) [] = false
bytes_less (x ∷ xs) (y ∷ ys) = let rest = bytes_less xs ys in if x == y then rest else ltb x y

-- `m[address] = struct{}{}`
unfoldable pub add_address : Bytes → List Bytes → List Bytes
add_address address [] = address ∷ []
add_address address (a ∷ addresses) =
    if bytes_equal a address then a ∷ addresses else a ∷ add_address address addresses

-- `_, exists := m[address]`
unfoldable pub is_whitelisted : Bytes → List Bytes → Bool
is_whitelisted address [] = false
is_whitelisted address (a ∷ addresses) =
    let rest = is_whitelisted address addresses in if bytes_equal a address then true else rest

-- The loop of `elrondRoleProvider.processResults`. `is_valid` is the SDK's test of an address.
unfoldable pub process_addresses : (Bytes → Bool) → List Bytes → List Bytes → Result (List Bytes)
process_addresses is_valid [] addresses = ok addresses
process_addresses is_valid (result ∷ results) addresses =
    let rest = process_addresses is_valid results (add_address result addresses) in
    if is_valid result then rest else err invalid_address_bytes

-- `elrondRoleProvider.processResults` on the stored addresses, which an error leaves as they were.
unfoldable pub process_results :
    (Bytes → Bool) → List Bytes → List Bytes → Result (Unit {0}) × List Bytes
process_results is_valid results stored = elim (process_addresses is_valid results []) [
  | err e ↦ (err e, stored)
  | ok addresses ↦ (ok tt, addresses)
]

-- `elrondRoleProvider.Execute`, by what the data getter answers.
unfoldable pub fetch_relayers :
    (Bytes → Bool) → Result (List Bytes) → List Bytes → Result (Unit {0}) × List Bytes
fetch_relayers is_valid (err e) stored = (err e, stored)
fetch_relayers is_valid (ok results) stored = process_results is_valid results stored

-- `elrondRoleProvider.SortedPublicKeys`
unfoldable pub insert : Bytes → List Bytes → List Bytes
insert key [] = key ∷ []
insert key (k ∷ keys) = if bytes_less key k then key ∷ k ∷ keys else k ∷ insert key keys

unfoldable pub sorted_public_keys : List Bytes → List Bytes
sorted_public_keys [] = []
sorted_public_keys (address ∷ addresses) = insert address (sorted_public_keys addresses)

-- `ethereumRoleProvider.processResults`
unfoldable pub add_all : List Bytes → List Bytes → List Bytes
add_all [] addresses = addresses
add_all (result ∷ results) addresses = add_all results (add_address result addresses)

unfoldable pub process_ethereum_results : List Bytes → List Bytes
process_ethereum_results results = add_all results []

-- go-ethereum's functions on signatures: `Ecrecover`, `UnmarshalPubkey` with `PubkeyToAddress`, and
-- `VerifySignature`.
pub record Crypto : Type 0 where
  pub ecrecover : Bytes → Bytes → Result Bytes
  pub address_of : Bytes → Result Bytes
  pub verify_signature : Bytes → Bytes → Bytes → Bool

abbrev pub eth_signature_size : ℕ
eth_signature_size = 64

-- `VerifyEthSignature`
unfoldable pub verify_eth_signature : Crypto → List Bytes → Bytes → Bytes → Result (Unit {0})
verify_eth_signature crypto whitelisted signature message_hash =
    elim (crypto.ecrecover message_hash signature) [
      | err e ↦ err e
      | ok pk_bytes ↦ elim (crypto.address_of pk_bytes) [
        | err e ↦ err e
        | ok address ↦
            if is_whitelisted address whitelisted
            then (if crypto.verify_signature pk_bytes message_hash (
                  if ltb eth_signature_size (length signature)
                  then take eth_signature_size signature
                  else signature)
                then ok tt
                else err invalid_signature)
            else err address_is_not_whitelisted
      ]
    ]

-- `randomInt`; `hash` is SHA-256, whose result has 32 bytes.
unfoldable pub random_int : (Bytes → Bytes) → ℕ → ℕ → ℕ
random_int hash seed max = if max == 0 then 0 else get_uint64 (hash (put_uint64 seed)) % max

-- `topologyHandler`: the addresses behind its provider, the leader's interval in seconds, and the
-- relayer's own address.
pub record TopologyHandler : Type 0 where
  pub whitelisted_addresses : List Bytes
  pub interval_for_leader : ℕ
  pub address_bytes : Bytes

-- `MyTurnAsLeader` at a Unix time, which is not before 1970; a division by zero and an index out of
-- range panic.
unfoldable pub my_turn_at : (Bytes → Bytes) → ℕ → TopologyHandler → Option Bool
my_turn_at hash now t =
    let keys = sorted_public_keys t.whitelisted_addresses in
    if length keys == 0
    then some false
    else if t.interval_for_leader == 0
    then none
    else elim (get_elem? keys (random_int hash (now / t.interval_for_leader) (length keys))) [
      | none ↦ none
      | some leader_address ↦ some (bytes_equal leader_address t.address_bytes)
    ]

-- `checkArgs` of the topology handler, of the arguments that are numbers or bytes. The interval is
-- `int64(Seconds())`.
unfoldable pub check_args : ℤ → Bytes → Result (Unit {0})
check_args interval_for_leader address_bytes =
    if leb_ℤ interval_for_leader (pos 0)
    then err invalid_interval_for_leader
    else if length address_bytes == 0
    then err empty_address
    else ok tt

-- `NewTopologyHandler`
unfoldable pub new_topology_handler : List Bytes → ℤ → Bytes → Result TopologyHandler
new_topology_handler whitelisted interval_for_leader address_bytes =
    elim (check_args interval_for_leader address_bytes) [
      | err e ↦ err e
      | ok _ ↦ ok (record {
        whitelisted_addresses = whitelisted;
        interval_for_leader = pos_part interval_for_leader;
        address_bytes = address_bytes;
      })
    ]
