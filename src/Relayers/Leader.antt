-- ===== src/Relayers/Leader.antt =====
-- MyTurnAsLeader of bridges/ethElrond/topology: at any time exactly one listed relayer leads.
use elrond_eth_bridge.Common.{
  ℕ, zero, suc, ◌/◌, ◌<◌, ◌≡◌, ◌≢◌, inl, inr, refl, Bool, false, some, List, [], ◌∷◌, Elem, length,
  get_elem?, arith,
}
use elrond_eth_bridge.Common.Bytes.{Bytes, bytes_equal}
use elrond_eth_bridge.Relayers.{TopologyHandler, random_int, sorted_public_keys, my_turn_at}
use elrond_eth_bridge.Relayers.Order.{Elem-sorted_public_keys}

random_int_lt : (hash : Bytes → Bytes) (seed max : ℕ) → max ≢ 0 → random_int hash seed max < max
unfolding random_int
random_int_lt hash seed max h = ground arith

get_elem?-Elem :
    (xs : List Bytes) (i : ℕ) → i < length xs → (x : Bytes) × (get_elem? xs i ≡ some x) × Elem x xs
get_elem?-Elem [] i h = absurd (omega arith)
get_elem?-Elem (x ∷ xs) zero h = (x, refl, inl refl)
get_elem?-Elem (x ∷ xs) (suc i) h =
    let (y, at, within) = get_elem?-Elem xs i (omega arith) in (y, at, inr within)

Elem-length : (x : Bytes) (xs : List Bytes) → Elem x xs → length xs ≢ 0
Elem-length x [] h = absurd h
Elem-length x (y ∷ xs) h = λ e. omega (arith, e)

-- Where some address is on the white list and the interval is not zero, there is one listed address such that at the given time
-- each relayer with that white list and that interval finds that it is its turn exactly when its
-- own address is this one: no relayer panics, one address leads, and no other does.
pub my_turn_at-leader :
    (hash : Bytes → Bytes) (now interval : ℕ) (a : Bytes) (whitelisted : List Bytes)
    → Elem a whitelisted
    → 0 < interval
    → (leader : Bytes) × Elem leader whitelisted
      × ((own : Bytes)
          → my_turn_at hash now (record {
            whitelisted_addresses = whitelisted;
            interval_for_leader = interval;
            address_bytes = own;
          })
            ≡ some (bytes_equal leader own))
unfolding my_turn_at
my_turn_at-leader hash now interval a whitelisted listed positive =
    let keys : List Bytes = sorted_public_keys whitelisted in
    let some_key : length keys ≢ 0 =
      Elem-length a keys ((Elem-sorted_public_keys a whitelisted).1 listed) in
    let (leader, at, within) =
      get_elem?-Elem keys (random_int hash (now / interval) (length keys))
        (random_int_lt hash (now / interval) (length keys) some_key) in
    (
      leader,
      (Elem-sorted_public_keys leader whitelisted).0 within,
      λ own. ground (arith, positive, some_key, at),
    )

-- Whose turn it is, a handler whose interval is not zero finds without a panic.
pub my_turn_at-some :
    (hash : Bytes → Bytes) (now : ℕ) (t : TopologyHandler)
    → 0 < t.interval_for_leader
    → (leads : Bool) × (my_turn_at hash now t ≡ some leads)
unfolding my_turn_at sorted_public_keys
my_turn_at-some hash now t positive = of_addresses t.whitelisted_addresses
  where
    of_addresses :
        (addresses : List Bytes)
        → (leads : Bool) × (my_turn_at hash now (record t { whitelisted_addresses = addresses })
            ≡ some leads)
    of_addresses [] = (false, refl)
    of_addresses (a ∷ addresses) =
        let (leader, _, turns) =
          my_turn_at-leader hash now t.interval_for_leader a (a ∷ addresses) (inl refl) positive in
        (bytes_equal leader t.address_bytes, turns t.address_bytes)
