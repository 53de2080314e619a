-- ===== src/Signatures.antt =====
-- bridges/ethElrond/signaturesHolder.go and core/messages.go: the signatures that the relayers sent
-- one another. The mutex makes each method one step. A Go map is ranged over in no fixed order: the
-- model keeps the order of insertion, on which no theorem rests.
pub mod Quorum
mod Tests
use elrond_eth_bridge.Common.{
  ℕ, Bool, true, false, Option, none, some, List, [], ◌∷◌, ◌++◌, if◌then◌else◌,
}
use elrond_eth_bridge.Common.Bytes.{Bytes, bytes_equal}

pub record SignedMessage : Type 0 where
  pub payload : Bytes
  pub public_key_bytes : Bytes
  pub signature : Bytes
  pub nonce : ℕ

pub record EthereumSignature : Type 0 where
  pub signature : Bytes
  pub message_hash : Bytes

-- `UniqueID`
unfoldable pub unique_id : SignedMessage → Bytes
unique_id msg = msg.public_key_bytes ++ msg.payload

pub record SignaturesHolder : Type 0 where
  pub signed_messages : List (Bytes × SignedMessage)
  pub eth_messages : List EthereumSignature

-- `NewSignatureHolder`
unfoldable pub new_signatures_holder : SignaturesHolder
new_signatures_holder = record { signed_messages = []; eth_messages = [] }

-- `signedMessages[key] = msg`
unfoldable pub put_message :
    Bytes → SignedMessage → List (Bytes × SignedMessage) → List (Bytes × SignedMessage)
put_message key msg [] = (key, msg) ∷ []
put_message key msg ((k, old) ∷ messages) =
    if bytes_equal k key then (key, msg) ∷ messages else (k, old) ∷ put_message key msg messages

-- `ProcessNewMessage`; either pointer may be nil.
unfoldable pub process_new_message :
    Option SignedMessage → Option EthereumSignature → SignaturesHolder → SignaturesHolder
unfolding put_message unique_id
process_new_message none eth_msg sh = sh
process_new_message (some msg) none sh = sh
process_new_message (some msg) (some eth_msg) sh = record sh {
  signed_messages = put_message (unique_id msg) msg sh.signed_messages;
  eth_messages = sh.eth_messages ++ eth_msg ∷ [];
}

-- `AllStoredSignatures`
values : List (Bytes × SignedMessage) → List SignedMessage
values [] = []
values ((k, msg) ∷ messages) = msg ∷ values messages

unfoldable pub all_stored_signatures : SignaturesHolder → List SignedMessage
unfolding values
all_stored_signatures sh = values sh.signed_messages

-- `uniqueEthSigs[sig] = struct{}{}`
add_unique : Bytes → List Bytes → List Bytes
add_unique sig [] = sig ∷ []
add_unique sig (s ∷ sigs) = if bytes_equal s sig then s ∷ sigs else s ∷ add_unique sig sigs

-- The loop over the messages in `Signatures`.
collect : Bytes → List Bytes → List EthereumSignature → List Bytes
unfolding add_unique
collect hash unique [] = unique
collect hash unique (m ∷ messages) =
    collect hash (if bytes_equal m.message_hash hash then add_unique m.signature unique else unique)
      messages

-- `Signatures`
unfoldable pub signatures : Bytes → SignaturesHolder → List Bytes
unfolding collect
signatures hash sh = collect hash [] sh.eth_messages

-- `ClearStoredSignatures`
unfoldable pub clear_stored_signatures : SignaturesHolder → SignaturesHolder
clear_stored_signatures sh = record { signed_messages = []; eth_messages = [] }
