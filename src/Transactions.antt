-- ===== src/Transactions.antt =====
-- src/utils/tx_context.rs: a transaction of a block, and how events are read from it. A message's body
-- is known by the hash of its cell; `read_function_id` and the decoding of a body are functions of the
-- ABI libraries.
pub mod Events
mod Examples
use ton_eth_bridge_relay.Base.{
  ℕ, Bool, true, false, Option, none, some, List, [], ◌∷◌, ok, err, ok_or, ◌>>=◌, ◌==◌,
  if◌then◌else◌,
}
use ton_eth_bridge_relay.Errors.{Fallible, not_found}
use ton_eth_bridge_relay.Shards.{UInt256}
use ton_eth_bridge_relay.Contracts.{Cell}

-- `ton_block::CommonMsgInfo` and `ton_block::Message`.
pub data Header : Type 0 where
  ext_in int_msg ext_out : Header

pub record Message : Type 0 where
  pub header : Header
  pub body : Option Cell

-- `ton_block::TransactionDescr`: the flag is `aborted`.
pub data Description : Type 0 where
  ordinary : Bool → Description
  other_description : Description

-- `ton_block::Transaction`: its parts are read from cells, which can fail.
pub record Transaction : Type 0 where
  pub hash : UInt256
  pub description : Fallible Description
  -- The hash of the message's cell, and the message.
  pub in_msg : Option (UInt256 × Fallible Message)
  pub out_msgs : List (Fallible Message)

-- `Account` is what is found in the shard's accounts after the block.
pub record TxContext {ℓ} (Account : Type ℓ) : Type ℓ where
  pub account : UInt256
  pub transaction_hash : UInt256
  pub in_msg : Message
  pub out_msgs : List (Fallible Message)
  pub find_account : UInt256 → Fallible (Option Account)

module _ {ℓ} {Account : Type ℓ} where
  unfoldable pub in_msg_internal : TxContext Account → Option Message
  in_msg_internal ctx = elim ctx.in_msg.header [ int_msg ↦ some ctx.in_msg | _ ↦ none ]

  unfoldable pub in_msg_external : TxContext Account → Option Message
  in_msg_external ctx = elim ctx.in_msg.header [ ext_in ↦ some ctx.in_msg | _ ↦ none ]

  unfoldable pub get_account_state : TxContext Account → Fallible Account
  get_account_state ctx = do found ← ctx.find_account ctx.account; ok_or found not_found

-- The body of an external outgoing message.
abbrev pub out_body : Message → Option Cell
out_body m = elim m.header [ ext_out ↦ m.body | _ ↦ none ]

-- `nekoton_abi::read_function_id`.
module _ (read_function_id : Cell → Fallible ℕ) where
  abbrev pub on_event {ℓ} : {A : Type ℓ} → (A → ℕ → Cell → A) → A → Option Cell → A
  on_event f acc none = acc
  on_event f acc (some body) = elim (read_function_id body) [ ok id ↦ f acc id body | err e ↦ acc ]

  -- `iterate_events`: `f` is the closure on what it changes. A message that cannot be read ends the
  -- iteration.
  unfoldable pub iterate_events {ℓ} :
      {A : Type ℓ} → (A → ℕ → Cell → A) → A → List (Fallible Message) → A
  iterate_events f acc [] = acc
  iterate_events f acc (err e ∷ messages) = acc
  iterate_events f acc (ok m ∷ messages) = iterate_events f (on_event f acc (out_body m)) messages

  -- `find_function_output`: the first message with the id whose body can be decoded; a message or an
  -- id that cannot be read ends the search.
  unfoldable pub find_function_output {ℓ} :
      {Tokens : Type ℓ} → ℕ → (Cell → Fallible Tokens) → List (Fallible Message) → Option Tokens
  find_function_output output_id decode_output [] = none
  find_function_output output_id decode_output (err e ∷ messages) = none
  find_function_output output_id decode_output (ok m ∷ messages) =
      let rest = find_function_output output_id decode_output messages in
      elim (out_body m) [
        | none ↦ rest
        | some body ↦ elim (read_function_id body) [
          | err e ↦ none
          | ok id ↦
              if id == output_id
              then (elim (decode_output body) [ ok tokens ↦ some tokens | err e ↦ rest ])
              else rest
        ]
      ]
