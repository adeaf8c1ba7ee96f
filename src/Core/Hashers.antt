-- ===== src/Core/Hashers.antt =====
-- include/core/hashers.h, where `std::size_t` has 64 bits. What `std::hash` makes of the components
-- of a tuple is a parameter: `hashes i` is the hash of component `i`.
pub mod Collisions
use Prim.Native.Nat.{bit_xor}
use hyperion_server.Common.{ℕ, zero, suc, ◌+◌, ◌*◌, ◌/◌, ◌%◌, ◌^◌}

abbrev pub size_mod : ℕ
size_mod = 2 ^ 64

-- The new `seed`.
unfoldable pub hash_combine : ℕ → ℕ → ℕ
hash_combine seed h =
    bit_xor seed ((h + 0x9e37_79b9 + seed * 2 ^ 6 % size_mod + seed / 2 ^ 2) % size_mod)

-- `Hash_value_impl<Tuple, Index>::apply`
unfoldable pub hash_value_impl : ℕ → ℕ → (ℕ → ℕ) → ℕ
hash_value_impl zero seed hashes = hash_combine seed (hashes 0)
hash_value_impl (suc index) seed hashes =
    hash_combine (hash_value_impl index seed hashes) (hashes (suc index))

-- `hash<std::tuple<Tt...>>` of a tuple with `suc last` components.
unfoldable pub hash_tuple : ℕ → (ℕ → ℕ) → ℕ
hash_tuple last hashes = hash_value_impl last 0 hashes
