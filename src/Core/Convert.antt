-- ===== src/Core/Convert.antt =====
-- include/core/convert.h, for integer types. A type has `bits` value bits beside its highest bit,
-- 7 for `int8_t` and `uint8_t`; a conversion out of range wraps around, as in C++20.
pub mod Exact
use hyperion_server.Common.{
  ℕ, suc, ◌+◌, ◌-◌, ◌*◌, ◌%◌, ◌^◌, ◌<◌, Bool, true, false, not, ◌&&◌, ◌||◌, leb, if◌then◌else◌,
}
use hyperion_server.Common.Int.{ℤ, pos, negsuc, is_negative, same_int}
use hyperion_server.Common.Exec.{Outcome, returned, aborted}

pub record IntType : Type 0 where
  pub is_signed : Bool
  pub bits : ℕ

abbrev pub half : IntType → ℕ
half t = 2 ^ t.bits

-- The values of a type.
abbrev pub Fits : Bool → ℕ → ℤ → Type 0
Fits true h (pos n) = n < h
Fits true h (negsuc n) = n < h
Fits false h (pos n) = n < 2 * h
Fits false h (negsuc n) = ⊥

abbrev pub residue : ℕ → ℤ → ℕ
residue m (pos n) = n % m
residue m (negsuc n) = m - 1 - n % m

abbrev pub of_residue : Bool → ℕ → ℕ → ℤ
of_residue signed h r = if signed && leb h r then negsuc (2 * h - r - 1) else pos r

-- `LossyCast<TTarget>(val)`
unfoldable pub lossy_cast : IntType → ℤ → ℤ
lossy_cast target val = of_residue target.is_signed (half target) (residue (2 * half target) val)

abbrev pub same_bool : Bool → Bool → Bool
same_bool true b = b
same_bool false b = not b

-- The condition of the assertion that fails, for a value and what it was cast to.
unfoldable pub is_lost : IntType → IntType → ℤ → ℤ → Bool
is_lost original target val cast_val =
    not (same_int (lossy_cast original cast_val) val)
    || (not (same_bool target.is_signed original.is_signed)
        && not (same_bool (is_negative cast_val) (is_negative val)))

-- `SafeCast<TTargetInt>(val)` of a value of the type `original`.
unfoldable pub safe_cast : IntType → IntType → ℤ → Outcome ℤ
safe_cast original target val =
    let cast_val = lossy_cast target val in
    if is_lost original target val cast_val then aborted else returned cast_val

-- `SafeCastAssign(l_val, r_val)`, with the new `l_val` as its result.
unfoldable pub safe_cast_assign : IntType → IntType → ℤ → ℤ → Outcome ℤ
safe_cast_assign left right l_val r_val = safe_cast right left r_val
