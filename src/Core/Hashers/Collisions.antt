-- ===== src/Core/Hashers/Collisions.antt =====
-- Which tuples may share a hash.
use Prim.Native.Nat.{bit_xor}
use hyperion_server.Common.{ℕ, zero, suc, ◌≤◌, ◌<◌, ◌≡◌, refl, sym, ap, ◌∙◌, arith}
use hyperion_server.Common.Bits.{bit_xor_cancel}
use hyperion_server.Core.Hashers.{size_mod, hash_combine, hash_value_impl, hash_tuple}

hash_combine-cancel :
    (seed h h' : ℕ)
    → h < size_mod
    → h' < size_mod
    → hash_combine seed h ≡ hash_combine seed h'
    → h ≡ h'
unfolding hash_combine
hash_combine-cancel seed h h' p q e =
    let sums = sym (bit_xor_cancel seed _) ∙ ap (bit_xor seed) e ∙ bit_xor_cancel seed _ in
    omega arith

value_same :
    (index seed : ℕ) (hashes hashes' : ℕ → ℕ)
    → ((i : ℕ) → i ≤ index → hashes i ≡ hashes' i)
    → hash_value_impl index seed hashes ≡ hash_value_impl index seed hashes'
unfolding hash_value_impl
value_same zero seed hashes hashes' h = ap (hash_combine seed) (h 0 (omega arith))
value_same (suc index) seed hashes hashes' h =
    rw
      (value_same index seed hashes hashes' (λ i l. h i (omega arith)), h (suc index) (omega arith))
      refl

-- Two tuples of which only the last components differ share a hash only where `std::hash` gives
-- these components the same 64-bit hash.
pub hash_tuple_last :
    (last : ℕ) (hashes hashes' : ℕ → ℕ)
    → ((i : ℕ) → i < last → hashes i ≡ hashes' i)
    → hashes last < size_mod
    → hashes' last < size_mod
    → hash_tuple last hashes ≡ hash_tuple last hashes'
    → hashes last ≡ hashes' last
unfolding hash_tuple hash_value_impl
hash_tuple_last zero hashes hashes' h p q e = hash_combine-cancel 0 (hashes 0) (hashes' 0) p q e
hash_tuple_last (suc last) hashes hashes' h p q e =
    hash_combine-cancel (hash_value_impl last 0 hashes) (hashes (suc last)) (hashes' (suc last)) p q
      (e
        ∙ ap (λ s. hash_combine s (hashes' (suc last)))
            (sym (value_same last 0 hashes hashes' (λ i l. h i (omega arith)))))
