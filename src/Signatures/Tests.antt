-- ===== src/Signatures/Tests.antt =====
-- Tests of the model of bridges/ethElrond/signaturesHolder.go, and the theorems at concrete inputs.
use elrond_eth_bridge.Common.{
  ℕ, ◌+◌, ◌⊎◌, List, length, ◌≢◌, ◌≡◌, ◌↔◌, refl, none, some, [], ◌∷◌, Elem,
}
use elrond_eth_bridge.Common.Bytes.{bytes_equal}
use elrond_eth_bridge.Signatures.{
  SignedMessage, EthereumSignature, SignaturesHolder, new_signatures_holder, process_new_message,
  signatures, all_stored_signatures, clear_stored_signatures,
}
use elrond_eth_bridge.Signatures.Quorum.{
  AreUnique, IsSigned, signatures_exact, length-signatures_process,
}

-- Two relayers sign the hash 9; the second one repeats itself, with another signature of the hash 8.
abbrev alice : SignedMessage
alice = record { payload = 1 ∷ []; public_key_bytes = 10 ∷ []; signature = 5 ∷ []; nonce = 1 }

abbrev bob : SignedMessage
bob = record { payload = 2 ∷ []; public_key_bytes = 11 ∷ []; signature = 6 ∷ []; nonce = 4 }

abbrev alice_signs : EthereumSignature
alice_signs = record { signature = 100 ∷ []; message_hash = 9 ∷ [] }

abbrev bob_signs : EthereumSignature
bob_signs = record { signature = 101 ∷ []; message_hash = 9 ∷ [] }

abbrev bob_signs_old : EthereumSignature
bob_signs_old = record { signature = 102 ∷ []; message_hash = 8 ∷ [] }

abbrev holder : SignaturesHolder
holder = record {
  signed_messages = (10 ∷ 1 ∷ [], alice) ∷ [];
  eth_messages = alice_signs ∷ bob_signs ∷ bob_signs_old ∷ bob_signs ∷ [];
}

both : signatures (9 ∷ []) holder ≡ (100 ∷ []) ∷ (101 ∷ []) ∷ []
unfolding signatures bytes_equal
both = refl

stored :
    all_stored_signatures (
      process_new_message (some alice) (some bob_signs) (
        process_new_message
          (some bob)
          (some bob_signs)
          (process_new_message (some alice) (some alice_signs) new_signatures_holder)))
    ≡ alice ∷ bob ∷ []
unfolding process_new_message all_stored_signatures new_signatures_holder bytes_equal
stored = refl

nil_message : process_new_message none (some bob_signs) holder ≡ holder
unfolding process_new_message
nil_message = refl

signatures_exact_example :
    AreUnique (signatures (9 ∷ []) holder)
    × ((sig : List ℕ)
        → Elem sig (signatures (9 ∷ []) holder) ↔ IsSigned (9 ∷ []) sig holder.eth_messages)
signatures_exact_example = signatures_exact (9 ∷ []) holder

length-signatures_process_example :
    let old = signatures (9 ∷ []) holder in
    let new = signatures (9 ∷ []) (process_new_message (some bob) (some bob_signs) holder) in
    ((bob_signs.message_hash ≡ 9 ∷ [])
      × (¬ Elem bob_signs.signature old)
      × (length new ≡ length old + 1))
    ⊎ (((bob_signs.message_hash ≢ 9 ∷ []) ⊎ Elem bob_signs.signature old) × (new ≡ old))
length-signatures_process_example = length-signatures_process (9 ∷ []) bob bob_signs holder

cleared : signatures (9 ∷ []) (clear_stored_signatures holder) ≡ []
unfolding signatures clear_stored_signatures
cleared = refl
