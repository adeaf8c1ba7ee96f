-- ===== src/Core/Convert/Exact.antt =====
-- A cast that is checked loses nothing.
use hyperion_server.Common.{
  ℕ, zero, suc, ◌*◌, ◌%◌, ◌^◌, ◌<◌, ◌≡◌, ◌⊎◌, refl, sym, ap, ◌∙◌, inl, inr, Bool, true, false, not,
  ◌&&◌, leb, Bool-cases, arith,
}
use hyperion_server.Common.Int.{ℤ, pos, negsuc, is_negative, same_int, same_int_iff}
use hyperion_server.Common.Exec.{returned, aborted}
use hyperion_server.Core.Convert.{
  IntType, half, Fits, residue, of_residue, lossy_cast, same_bool, is_lost, safe_cast,
}

mod_small : (n m : ℕ) → n < m → n % m ≡ n
mod_small n m h = grind arith

mod_below : (n m : ℕ) → 0 < m → n % m < m
mod_below n m h = grind arith

half_pos : (k : ℕ) → 0 < 2 ^ k
half_pos zero = omega arith
half_pos (suc k) = omega (arith, half_pos k)

Fits-same :
    (signed : Bool) (h : ℕ) (v : ℤ)
    → 0 < h
    → Fits signed h v
    → of_residue signed h (residue (2 * h) v) ≡ v
Fits-same true h (pos n) p f = ground (arith, mod_small n (2 * h))
Fits-same true h (negsuc n) p f = ground (arith, mod_small n (2 * h))
Fits-same false h (pos n) p f = ground (arith, mod_small n (2 * h))
Fits-same false h (negsuc n) p f = absurd f

residue_below : (m : ℕ) (v : ℤ) → 0 < m → residue m v < m
residue_below m (pos n) p = mod_below n m p
residue_below m (negsuc n) p = omega arith

residue-Fits : (signed : Bool) (h r : ℕ) → r < 2 * h → Fits signed h (of_residue signed h r)
residue-Fits true h r p = elim (Bool-cases (leb h r)) [
  | inl e ↦ rw e (ground arith)
  | inr e ↦ rw e (ground arith)
]
residue-Fits false h r p = p

-- What the test of the cast leaves only for values of both types.
both_fit :
    (s t : Bool) (hs ht : ℕ) (v c : ℤ)
    → Fits s hs v
    → Fits t ht c
    → (Fits s hs c → c ≡ v)
    → not (same_bool t s) && not (same_bool (is_negative c) (is_negative v)) ≡ false
    → Fits t ht v
both_fit true true hs ht (pos m) (pos n) f g e k = ground (arith, e)
both_fit s t hs ht v c f g e k = ground (arith, e)

same_int_refl : (v : ℤ) → same_int v v ≡ true
same_int_refl v = let i = same_int_iff v v in i.1 refl

same_bool_refl : (b : Bool) → same_bool b b ≡ true
same_bool_refl true = refl
same_bool_refl false = refl

lossy_same : (t : IntType) (v : ℤ) → Fits t.is_signed (half t) v → lossy_cast t v ≡ v
unfolding lossy_cast
lossy_same t v f = Fits-same t.is_signed (half t) v (half_pos t.bits) f

lossy-Fits : (t : IntType) (v : ℤ) → Fits t.is_signed (half t) (lossy_cast t v)
unfolding lossy_cast
lossy-Fits t v =
    let p : 0 < half t = half_pos t.bits in
    residue-Fits t.is_signed (half t) _ (residue_below (2 * half t) v (omega arith))

module _ (original target : IntType) (v : ℤ)
    (fits : Fits original.is_signed (half original) v) where
  not_lost : is_lost original target v v ≡ false
  unfolding is_lost
  not_lost =
      rw (lossy_same original v fits, same_int_refl v, same_bool_refl (is_negative v))
        (ground arith)

  kept-Fits :
      (c : ℤ)
      → Fits target.is_signed (half target) c
      → is_lost original target v c ≡ false
      → Fits target.is_signed (half target) v
  unfolding is_lost
  kept-Fits c f e =
      both_fit original.is_signed target.is_signed (half original) (half target) v c fits f
        (λ g.
          sym (lossy_same original c g) ∙ (same_int_iff (lossy_cast original c) v).0 (ground arith))
        (ground arith)

  -- A cast of a value of its original type returns that value where the target type has it, and
  -- otherwise its assertion fails: no value is changed, whatever the signs and the widths.
  pub safe_cast_lem :
      (Fits target.is_signed (half target) v × (safe_cast original target v ≡ returned v))
      ⊎ ((¬ Fits target.is_signed (half target) v) × (safe_cast original target v ≡ aborted))
  unfolding safe_cast
  safe_cast_lem = elim (Bool-cases (is_lost original target v (lossy_cast target v))) [
    | inl lost ↦ inr (λ f. cc (rw (lossy_same target v f) at lost, not_lost), rw lost refl)
    | inr kept ↦
        let f = kept-Fits (lossy_cast target v) (lossy-Fits target v) kept in
        inl (f, rw kept (ap returned (lossy_same target v f)))
  ]
