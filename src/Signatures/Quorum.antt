-- ===== src/Signatures/Quorum.antt =====
-- What counts towards a quorum: the signatures that signaturesHolder.go returns for a message hash.
use elrond_eth_bridge.Common.{
  ◌+◌, ◌≡◌, ◌≢◌, ◌↔◌, ◌⊎◌, inl, inr, refl, some, List, [], ◌∷◌, ◌++◌, Elem, length, arith,
  if◌then◌else◌, Bool-cases,
}
use elrond_eth_bridge.Common.Bytes.{Bytes, bytes_equal, bytes_equal_iff}
use elrond_eth_bridge.Signatures.{
  SignedMessage, EthereumSignature, SignaturesHolder, process_new_message, add_unique, collect,
  signatures,
}

-- No signature occurs twice.
abbrev pub AreUnique : List Bytes → Type 0
AreUnique [] = Unit
AreUnique (s ∷ sigs) = ¬ Elem s sigs × AreUnique sigs

-- Some message carries the signature for the hash.
abbrev pub IsSigned : Bytes → Bytes → List EthereumSignature → Type 0
IsSigned hash sig [] = ⊥
IsSigned hash sig (m ∷ messages) =
    ((m.message_hash ≡ hash) × (m.signature ≡ sig)) ⊎ IsSigned hash sig messages

add_unique_sound :
    (a s : Bytes) (sigs : List Bytes) → Elem a (add_unique s sigs) → (a ≡ s) ⊎ Elem a sigs
unfolding add_unique
add_unique_sound a s [] h = h
add_unique_sound a s (x ∷ sigs) h = ground (arith, bytes_equal_iff x s, add_unique_sound a s sigs)

add_unique_complete :
    (a s : Bytes) (sigs : List Bytes) → (a ≡ s) ⊎ Elem a sigs → Elem a (add_unique s sigs)
unfolding add_unique
add_unique_complete a s [] h = h
add_unique_complete a s (x ∷ sigs) h =
    ground (arith, bytes_equal_iff x s, add_unique_complete a s sigs)

add_unique-AreUnique :
    (s : Bytes) (sigs : List Bytes) → AreUnique sigs → AreUnique (add_unique s sigs)
unfolding add_unique
add_unique-AreUnique s [] h = (λ e. e, tt)
add_unique-AreUnique s (x ∷ sigs) h =
    ground (arith, bytes_equal_iff x s, add_unique-AreUnique s sigs h.1, add_unique_sound x s sigs)

collect-AreUnique :
    (hash : Bytes) (sigs : List Bytes) (ms : List EthereumSignature)
    → AreUnique sigs
    → AreUnique (collect hash sigs ms)
unfolding collect
collect-AreUnique hash sigs [] h = h
collect-AreUnique hash sigs (m ∷ ms) h = elim (Bool-cases (bytes_equal m.message_hash hash)) [
  | inl same ↦ rw same (
      collect-AreUnique hash (add_unique m.signature sigs) ms
        (add_unique-AreUnique m.signature sigs h))
  | inr other ↦ rw other (collect-AreUnique hash sigs ms h)
]

collect_sound :
    (hash a : Bytes) (sigs : List Bytes) (ms : List EthereumSignature)
    → Elem a (collect hash sigs ms)
    → Elem a sigs ⊎ IsSigned hash a ms
unfolding collect
collect_sound hash a sigs [] h = inl h
collect_sound hash a sigs (m ∷ ms) h = ground (
  arith,
  bytes_equal_iff m.message_hash hash,
  collect_sound hash a (add_unique m.signature sigs) ms,
  collect_sound hash a sigs ms,
  add_unique_sound a m.signature sigs,
)

collect_complete :
    (hash a : Bytes) (sigs : List Bytes) (ms : List EthereumSignature)
    → Elem a sigs ⊎ IsSigned hash a ms
    → Elem a (collect hash sigs ms)
unfolding collect
collect_complete hash a sigs [] h = ground arith
collect_complete hash a sigs (m ∷ ms) h = ground (
  arith,
  bytes_equal_iff m.message_hash hash,
  collect_complete hash a (add_unique m.signature sigs) ms,
  collect_complete hash a sigs ms,
  add_unique_complete a m.signature sigs,
)

-- `Signatures` returns each signature once, and returns exactly the signatures that some stored
-- message carries for the given hash.
pub signatures_exact :
    (hash : Bytes) (sh : SignaturesHolder)
    → AreUnique (signatures hash sh)
      × ((sig : Bytes) → Elem sig (signatures hash sh) ↔ IsSigned hash sig sh.eth_messages)
unfolding signatures
signatures_exact hash sh = (
  collect-AreUnique hash [] sh.eth_messages tt,
  λ sig. (
    λ h. ground (arith, collect_sound hash sig [] sh.eth_messages),
    λ h. collect_complete hash sig [] sh.eth_messages (inr h),
  ),
)

collect-append :
    (hash : Bytes) (sigs : List Bytes) (ms : List EthereumSignature) (m : EthereumSignature)
    → collect hash sigs (ms ++ m ∷ []) ≡ (
        if bytes_equal m.message_hash hash
        then add_unique m.signature (collect hash sigs ms)
        else collect hash sigs ms)
unfolding collect
collect-append hash sigs [] m = refl
collect-append hash sigs (x ∷ ms) m =
    collect-append hash
      (if bytes_equal x.message_hash hash then add_unique x.signature sigs else sigs) ms m

length-add_unique_old : (s : Bytes) (sigs : List Bytes) → Elem s sigs → add_unique s sigs ≡ sigs
unfolding add_unique
length-add_unique_old s [] h = absurd h
length-add_unique_old s (x ∷ sigs) h =
    ground (arith, bytes_equal_iff x s, length-add_unique_old s sigs)

length-add_unique_new :
    (s : Bytes) (sigs : List Bytes) → ¬ Elem s sigs → length (add_unique s sigs) ≡ length sigs + 1
unfolding add_unique
length-add_unique_new s [] h = omega arith
length-add_unique_new s (x ∷ sigs) h =
    ground (arith, bytes_equal_iff x s, length-add_unique_new s sigs)

Elem-cases : (s : Bytes) (sigs : List Bytes) → Elem s sigs ⊎ ¬ Elem s sigs
Elem-cases s [] = inr (λ e. e)
Elem-cases s (x ∷ sigs) =
    ground (arith, bytes_equal_iff x s, Elem-cases s sigs, Bool-cases (bytes_equal x s))

-- How one more message changes the number of signatures for a hash, which is compared with the
-- quorum: a signature for that hash that was not there adds one; one that was there, whoever
-- repeats it, and a signature for another hash change nothing.
pub length-signatures_process :
    (hash : Bytes) (msg : SignedMessage) (m : EthereumSignature) (sh : SignaturesHolder)
    → let old = signatures hash sh in
      let new = signatures hash (process_new_message (some msg) (some m) sh) in
      ((m.message_hash ≡ hash) × (¬ Elem m.signature old) × (length new ≡ length old + 1))
      ⊎ (((m.message_hash ≢ hash) ⊎ Elem m.signature old) × (new ≡ old))
unfolding signatures process_new_message
length-signatures_process hash msg m sh = rw (collect-append hash [] sh.eth_messages m) (
    ground (
      arith,
      bytes_equal_iff m.message_hash hash,
      Elem-cases m.signature (collect hash [] sh.eth_messages),
      length-add_unique_old m.signature (collect hash [] sh.eth_messages),
      length-add_unique_new m.signature (collect hash [] sh.eth_messages),
    ))
