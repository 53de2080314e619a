-- ===== src/Relayers/Order.antt =====
-- The order of byte strings, and sorted lists without repetitions (SortedPublicKeys of
-- clients/roleProviders/elrondRoleProvider.go).
use elrond_eth_bridge.Common.{
  ◌≡◌, ◌↔◌, ◌⊎◌, inl, inr, refl, sym, true, false, List, [], ◌∷◌, ap, All, Elem, arith,
}
use elrond_eth_bridge.Common.Bytes.{Bytes}
use elrond_eth_bridge.Relayers.{bytes_less, insert, sorted_public_keys}

bytes_less_irrefl : (a : Bytes) → bytes_less a a ≡ false
unfolding bytes_less
bytes_less_irrefl [] = refl
bytes_less_irrefl (x ∷ xs) = ground (arith, bytes_less_irrefl xs)

bytes_less_trans :
    (a b c : Bytes) → bytes_less a b ≡ true → bytes_less b c ≡ true → bytes_less a c ≡ true
unfolding bytes_less
bytes_less_trans [] [] [] h k = h
bytes_less_trans [] (y ∷ ys) [] h k = ground arith
bytes_less_trans [] b (z ∷ zs) h k = refl
bytes_less_trans (x ∷ xs) [] c h k = ground arith
bytes_less_trans (x ∷ xs) (y ∷ ys) [] h k = ground arith
bytes_less_trans (x ∷ xs) (y ∷ ys) (z ∷ zs) h k = ground (arith, bytes_less_trans xs ys zs)

bytes_less_total : (a b : Bytes) → (a ≡ b) ⊎ ((bytes_less a b ≡ true) ⊎ (bytes_less b a ≡ true))
unfolding bytes_less
bytes_less_total [] [] = inl refl
bytes_less_total [] (y ∷ ys) = inr (inl refl)
bytes_less_total (x ∷ xs) [] = inr (inr refl)
bytes_less_total (x ∷ xs) (y ∷ ys) = ground (arith, bytes_less_total xs ys)

abbrev pub IsBelow : Bytes → List Bytes → Type 0
IsBelow a keys = All (λ k. bytes_less a k ≡ true) keys

abbrev pub IsSorted : List Bytes → Type 0
IsSorted [] = Unit
IsSorted (k ∷ keys) = IsBelow k keys × IsSorted keys

abbrev pub AreDistinct : List Bytes → Type 0
AreDistinct [] = Unit
AreDistinct (a ∷ addresses) = ¬ Elem a addresses × AreDistinct addresses

Elem-insert :
    (a key : Bytes) (keys : List Bytes) → Elem a (insert key keys) ↔ ((a ≡ key) ⊎ Elem a keys)
unfolding insert
Elem-insert a key [] = ground arith
Elem-insert a key (k ∷ keys) = ground (arith, Elem-insert a key keys)

IsBelow-Elem :
    (a b : Bytes) (keys : List Bytes) → IsBelow a keys → Elem b keys → bytes_less a b ≡ true
IsBelow-Elem a b [] below h = absurd h
IsBelow-Elem a b (k ∷ keys) (less, below) h = elim h [
  | inl same ↦ rw same less
  | inr later ↦ IsBelow-Elem a b keys below later
]

IsBelow-trans :
    (a b : Bytes) (keys : List Bytes) → bytes_less a b ≡ true → IsBelow b keys → IsBelow a keys
IsBelow-trans a b [] less below = tt
IsBelow-trans a b (k ∷ keys) less (h, below) =
    (bytes_less_trans a b k less h, IsBelow-trans a b keys less below)

IsBelow-insert :
    (a key : Bytes) (keys : List Bytes)
    → bytes_less a key ≡ true
    → IsBelow a keys
    → IsBelow a (insert key keys)
unfolding insert
IsBelow-insert a key [] less below = (less, tt)
IsBelow-insert a key (k ∷ keys) less (h, below) =
    ground (arith, IsBelow-insert a key keys less below)

insert-IsSorted :
    (key : Bytes) (keys : List Bytes) → ¬ Elem key keys → IsSorted keys → IsSorted (insert key keys)
unfolding insert
insert-IsSorted key [] new sorted = (tt, tt)
insert-IsSorted key (k ∷ keys) new (below, sorted) = ground (
  arith,
  bytes_less_total key k,
  IsBelow-trans key k keys,
  IsBelow-insert k key keys,
  insert-IsSorted key keys,
)

pub Elem-sorted_public_keys :
    (a : Bytes) (addresses : List Bytes) → Elem a (sorted_public_keys addresses) ↔ Elem a addresses
unfolding sorted_public_keys
Elem-sorted_public_keys a [] = ground arith
Elem-sorted_public_keys a (x ∷ addresses) =
    ground
      (arith, Elem-sorted_public_keys a addresses, Elem-insert a x (sorted_public_keys addresses))

pub sorted_public_keys-IsSorted :
    (addresses : List Bytes) → AreDistinct addresses → IsSorted (sorted_public_keys addresses)
unfolding sorted_public_keys
sorted_public_keys-IsSorted [] distinct = tt
sorted_public_keys-IsSorted (x ∷ addresses) (new, distinct) =
    insert-IsSorted x (sorted_public_keys addresses)
      (λ h. new ((Elem-sorted_public_keys x addresses).0 h))
      (sorted_public_keys-IsSorted addresses distinct)

not_below : (a : Bytes) (keys : List Bytes) → IsBelow a keys → ¬ Elem a keys
not_below a keys below h = ground (arith, bytes_less_irrefl a, IsBelow-Elem a a keys below h)

-- An element of a sorted tail is one of the other list's tail, where the heads are the same.
tail_same :
    (a x y : Bytes) (xs ys : List Bytes)
    → x ≡ y
    → IsBelow x xs
    → (Elem a (x ∷ xs) ↔ Elem a (y ∷ ys))
    → Elem a xs
    → Elem a ys
tail_same a x y xs ys e below same h = elim (same.0 (inr h)) [
  | inl head ↦ absurd (not_below x xs below (rw e (rw (← head) h)))
  | inr later ↦ later
]

-- Two sorted lists with the same elements are the same list.
pub sorted_lists_agree :
    (xs ys : List Bytes)
    → IsSorted xs
    → IsSorted ys
    → ((a : Bytes) → Elem a xs ↔ Elem a ys)
    → xs ≡ ys
sorted_lists_agree [] [] hx hy same = refl
sorted_lists_agree [] (y ∷ ys) hx hy same = absurd ((same y).1 (inl refl))
sorted_lists_agree (x ∷ xs) [] hx hy same = absurd ((same x).0 (inl refl))
sorted_lists_agree (x ∷ xs) (y ∷ ys) (bx, hx) (by_, hy) same = rw heads (
    ap (◌∷◌ y) (
      sorted_lists_agree xs ys hx hy λ a. (
        tail_same a x y xs ys heads bx (same a),
        tail_same a y x ys xs (sym heads) by_ ((same a).1, (same a).0),
      )))
  where
    heads : x ≡ y
    heads = elim ((same x).0 (inl refl)) [
      | inl e ↦ e
      | inr in_ys ↦ elim ((same y).1 (inl refl)) [
        | inl e ↦ sym e
        | inr in_xs ↦ ground (
          arith,
          bytes_less_irrefl x,
          bytes_less_trans x y x (IsBelow-Elem x y xs bx in_xs) (IsBelow-Elem y x ys by_ in_ys),
        )
      ]
    ]
