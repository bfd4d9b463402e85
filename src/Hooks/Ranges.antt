-- ===== src/Hooks/Ranges.antt =====
-- The ranges of keys that the hooks ask for: those of a partition (useStudioData.ts,
-- usePartitionMetadata.ts), and those of a user in a partition (useUserContext.ts).
pub mod Decoded
use Prim.Native.Nat.{bit_or}
use beast_db.Prelude.{ℕ, ◌+◌, ◌-◌, ◌*◌, ◌^◌}

-- BigInt(prefix) << 56n
unfoldable pub start_key : ℕ → ℕ
start_key prefix = prefix * 2 ^ 56

-- ((BigInt(prefix) + 1n) << 56n) - 1n; this is never below 0.
unfoldable pub end_key : ℕ → ℕ
end_key prefix = (prefix + 1) * 2 ^ 56 - 1

-- (BigInt(prefix) << 56n) | (BigInt(userHash) << 28n)
unfoldable pub user_base : ℕ → ℕ → ℕ
user_base prefix user_hash = bit_or (prefix * 2 ^ 56) (user_hash * 2 ^ 28)

-- base | 0x0fffffffn
unfoldable pub user_end : ℕ → ℕ → ℕ
unfolding user_base
user_end prefix user_hash = bit_or (user_base prefix user_hash) 0x0fffffff
