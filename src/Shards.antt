-- ===== src/Shards.antt =====
-- src/utils/shard_utils.rs: which shard an account belongs to. A `UInt256` is the number that its 32
-- bytes spell, the first byte the highest. `ShardIdent` is a type of the `ton_block` crate: the
-- record holds what its getters `shard_prefix_with_tag` and `prefix_len` return.
use Prim.Native.Nat.{bit_or}
use ton_eth_bridge_relay.Errors.{Fallible, invalid_contract_address}
use ton_eth_bridge_relay.Base.{
  ℕ, zero, suc, ◌+◌, ◌-◌, ◌*◌, ◌/◌, ◌%◌, ◌^◌, Bool, true, ltb, ◌==◌, if◌then◌else◌, u64_mod, Option,
  List, [], ◌∷◌, err,
}

abbrev pub UInt256 : Type 0
UInt256 = ℕ

pub record ShardIdent : Type 0 where
  pub shard_prefix_with_tag : ℕ
  pub prefix_len : ℕ

-- `ton_block::SHARD_FULL`, the prefix of a shard that holds every account.
abbrev pub shard_full : ℕ
shard_full = 0x8000000000000000

-- `account.as_slice()[i]`.
unfoldable pub byte : UInt256 → ℕ → ℕ
byte account i = account / 256 ^ (31 - i) % 256

-- `<<` on a u64 drops what leaves the word.
unfoldable pub shl : ℕ → ℕ → ℕ
shl x k = (x * 2 ^ k) % u64_mod

unfoldable pub shr : ℕ → ℕ → ℕ
shr x k = x / 2 ^ k

-- The loop over the whole bytes of the prefix: `n` rounds are left, `i` is the index.
unfoldable pub or_bytes : UInt256 → ℕ → ℕ → ℕ → ℕ
unfolding byte shl
or_bytes account zero i value = value
or_bytes account (suc n) i value =
    or_bytes account n (i + 1) (bit_or value (shl (byte account i) (8 * (7 - i))))

unfoldable pub account_prefix : UInt256 → ℕ → ℕ
unfolding byte shl shr or_bytes
account_prefix account len =
    let bytes = len / 8 in
    let value = or_bytes account bytes 0 0 in
    let remainder = len % 8 in
    if ltb 0 remainder
    then bit_or value
        (shl (shr (byte account bytes) (8 - remainder)) (8 * (7 - bytes) + 8 - remainder))
    else value

unfoldable pub contains_account : ShardIdent → UInt256 → Bool
unfolding account_prefix shr
contains_account shard account =
    let shard_prefix = shard.shard_prefix_with_tag in
    if shard_prefix == shard_full
    then true
    else (let len = shard.prefix_len in
        shr (account_prefix account len) (64 - len) == shr shard_prefix (64 - len))

-- `ShardAccountsMap::find_account`: the map of the shards in the order of its iteration, each with the
-- look-up of an account in it.
unfoldable pub find_account {ℓ} :
    {Contract : Type ℓ}
    → List (ShardIdent × (UInt256 → Fallible (Option Contract)))
    → UInt256
    → Fallible (Option Contract)
unfolding contains_account
find_account [] account = err invalid_contract_address
find_account ((shard, look_up) ∷ shards) account =
    let rest = find_account shards account in
    if contains_account shard account then look_up account else rest
