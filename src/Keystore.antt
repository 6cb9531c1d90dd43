-- ===== src/Keystore.antt =====
-- src/engine/keystore/mod.rs: the messages to contracts, before and after they are signed. The ABI
-- library encodes a call (`encode_input`); the keys are known by numbers.
use ton_eth_bridge_relay.Base.{
  ℕ, zero, suc, ◌+◌, ◌/◌, ◌%◌, Option, none, some, List, [], ◌∷◌, ◌++◌, ok, ◌>>=◌, length, u32_mod,
}
use ton_eth_bridge_relay.Errors.{Fallible}
use ton_eth_bridge_relay.Shards.{UInt256}
use ton_eth_bridge_relay.Contracts.{Cell}

-- `MESSAGE_TTL_SEC`.
abbrev pub message_ttl_sec : ℕ
message_ttl_sec = 60

-- The headers of a call.
pub record Headers : Type 0 where
  pub time : ℕ
  pub expire : ℕ
  pub pubkey : Option UInt256

unfoldable pub default_headers : ℕ → ℕ → UInt256 → Headers
default_headers time expire_at public_key = record {
  time = time;
  expire = expire_at;
  pubkey = some public_key;
}

-- `ton_abi::Function`: the names of the inputs, and the encoding of a call, with the key that signs it.
pub record Function {ℓ} (Token : Type ℓ) : Type ℓ where
  pub inputs : List ℕ
  pub encode_input : Headers → List (ℕ × Token) → Option UInt256 → Fallible Cell

-- The destination has the account in workchain 0.
pub record UnsignedMessage {ℓ} (Token : Type ℓ) : Type ℓ where
  pub function : Function Token
  pub inputs : List (ℕ × Token)
  pub account : UInt256

-- The external message is known by its destination and its body.
pub record SignedMessage : Type 0 where
  pub account : UInt256
  pub dst : UInt256
  pub body : Cell
  pub expire_at : ℕ

-- The item at an index, none out of range.
abbrev nth : List ℕ → ℕ → Option ℕ
nth [] n = none
nth (x ∷ xs) zero = some x
nth (x ∷ xs) (suc n) = nth xs n

-- `(time / 1000) as u32 + MESSAGE_TTL_SEC`, of a time in milliseconds.
unfoldable pub expiry : ℕ → ℕ
expiry time = ((time / 1000) % u32_mod + message_ttl_sec) % u32_mod

module _ {ℓ} {Token : Type ℓ} where
  unfoldable pub new : Function Token → UInt256 → UnsignedMessage Token
  new function account = record { function = function; inputs = []; account = account }

  -- None where the index panics.
  unfoldable pub arg : Token → UnsignedMessage Token → Option (UnsignedMessage Token)
  arg token m = elim (nth m.function.inputs (length m.inputs)) [
    | none ↦ none
    | some name ↦ some (record m { inputs = m.inputs ++ ((name, token) ∷ []) })
  ]

  unfoldable pub sign : UInt256 → ℕ → UnsignedMessage Token → Fallible SignedMessage
  unfolding expiry default_headers
  sign key time m = do
    body ← m.function.encode_input (default_headers time (expiry time) key) m.inputs (some key)
    ok (record { account = m.account; dst = m.account; body = body; expire_at = expiry time })

  -- The headers have the default key; the call is not signed.
  unfoldable pub build_without_signature :
      UInt256 → ℕ → UnsignedMessage Token → Fallible SignedMessage
  unfolding expiry default_headers
  build_without_signature default_key time m = do
    body ← m.function.encode_input (default_headers time (expiry time) default_key) m.inputs none
    ok (record { account = m.account; dst = m.account; body = body; expire_at = expiry time })
