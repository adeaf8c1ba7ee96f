-- ===== src/Core/Utility/Slices.antt =====
-- Parts of a text, by the places of their characters.
use hyperion_server.Common.{
  ℕ, zero, suc, ◌+◌, ◌-◌, ◌≤◌, ◌<◌, ◌≡◌, refl, ap, [], ◌∷◌, ◌++◌, length, All, arith,
}
use hyperion_server.Common.Text.{Text}
use hyperion_server.Core.Utility.{char_at, take, drop}

pub take-drop : (n : ℕ) (str : Text) → take n str ++ drop n str ≡ str
take-drop zero str = refl
take-drop (suc n) [] = refl
take-drop (suc n) (c ∷ str) = ap (λ s. c ∷ s) (take-drop n str)

pub length-take : (n : ℕ) (str : Text) → n ≤ length str → length (take n str) ≡ n
length-take zero str h = refl
length-take (suc n) [] h = absurd (omega arith)
length-take (suc n) (c ∷ str) h = omega (arith, length-take n str (omega arith))

pub length-drop : (n : ℕ) (str : Text) → length (drop n str) ≡ length str - n
length-drop zero str = omega arith
length-drop (suc n) [] = omega arith
length-drop (suc n) (c ∷ str) = omega (arith, length-drop n str)

pub char_at-take : (n i : ℕ) (str : Text) → i < n → char_at (take n str) i ≡ char_at str i
char_at-take zero i str h = absurd (omega arith)
char_at-take (suc n) i [] h = refl
char_at-take (suc n) zero (c ∷ str) h = refl
char_at-take (suc n) (suc i) (c ∷ str) h = char_at-take n i str (omega arith)

pub char_at-drop : (n i : ℕ) (str : Text) → char_at (drop n str) i ≡ char_at str (n + i)
char_at-drop zero i str = ap (char_at str) (omega arith)
char_at-drop (suc n) i [] = refl
char_at-drop (suc n) i (c ∷ str) =
    let next : suc n + i ≡ suc (n + i) = omega arith in rw next (char_at-drop n i str)

module _ (P : ℕ → Type 0) where
  pub All-take :
      (n : ℕ) (str : Text)
      → n ≤ length str
      → ((i : ℕ) → i < n → P (char_at str i))
      → All P (take n str)
  All-take zero str l h = tt
  All-take (suc n) [] l h = tt
  All-take (suc n) (c ∷ str) l h =
      (h 0 (omega arith), All-take n str (omega arith) (λ i p. h (suc i) (omega arith)))

  pub All-drop :
      (n : ℕ) (str : Text)
      → ((i : ℕ) → n ≤ i → i < length str → P (char_at str i))
      → All P (drop n str)
  All-drop zero [] h = tt
  All-drop zero (c ∷ str) h = (
    h 0 (omega arith) (omega arith),
    All-drop zero str (λ i l p. h (suc i) (omega arith) (omega arith)),
  )
  All-drop (suc n) [] h = tt
  All-drop (suc n) (c ∷ str) h = All-drop n str (λ i l p. h (suc i) (omega arith) (omega arith))
