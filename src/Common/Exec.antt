-- ===== src/Common/Exec.antt =====
-- C++ code that changes an object: it returns, throws, or is aborted, by a failed `assert` or by a
-- read outside its buffer. What was
-- written before an exception stays written, so the state comes back in every case.
pub mod Triple
pub mod Kept
pub mod Moves
use mathlib.Core.Bool.{Bool, true, false}

-- The exceptions of the program and of what it calls.
pub data Error : Type 0 where
  -- `ParseGreetingError`, by its message
  too_few_bytes invalid_media_type unsupported_dimension fps_zero fps_too_big : Error
  -- `ReadFileError`, `std::filesystem::filesystem_error`, `std::length_error`, `asio::system_error`
  read_file_error filesystem_error length_error system_error : Error

pub data Outcome {ℓ} (A : Type ℓ) : Type ℓ where
  returned : A → Outcome A
  thrown : Error → Outcome A
  aborted : Outcome A

abbrev pub Exec {ℓ} : Type ℓ → Type ℓ → Type ℓ
Exec S A = S → Outcome A × S

module _ {ℓ} {S A : Type ℓ} where
  unfoldable pub pure : A → Exec S A
  pure a s = (returned a, s)

  unfoldable pub throw : Error → Exec S A
  throw e s = (thrown e, s)

  -- Read from the state.
  unfoldable pub gets : (S → A) → Exec S A
  gets f s = (returned (f s), s)

  -- An outcome that is known, as code.
  unfoldable pub lift : Outcome A → Exec S A
  lift r s = (r, s)

unfoldable pub modify : {S : Type 0} → (S → S) → Exec S (Unit {0})
modify f s = (returned tt, f s)

unfoldable pub assert : {S : Type 0} → Bool → Exec S (Unit {0})
assert true s = (returned tt, s)
assert false s = (aborted, s)

-- A call that the environment may make throw.
unfoldable pub may_throw : {S : Type 0} → Bool → Error → Exec S (Unit {0})
may_throw true e s = (thrown e, s)
may_throw false e s = (returned tt, s)

module _ {ℓ} {S A B : Type ℓ} where
  abbrev pub resume : Outcome A → (A → Exec S B) → Exec S B
  resume (returned a) f s = f a s
  resume (thrown e) f s = (thrown e, s)
  resume aborted f s = (aborted, s)

  infixl 10 ◌>>=◌ ◌>>◌
  -- Opening this opens the code of one step too.
  unfoldable pub ◌>>=◌ : Exec S A → (A → Exec S B) → Exec S B
  unfolding pure throw gets lift modify assert may_throw
  ◌>>=◌ m f s = let r = m s in resume r.0 f r.1

  abbrev pub ◌>>◌ : Exec S A → Exec S B → Exec S B
  m >> n = m >>= λ _. n

module _ {ℓ} {S A : Type ℓ} where
  abbrev pub handle_with : (Error → Exec S A) → Outcome A → Exec S A
  handle_with h (returned a) s = (returned a, s)
  handle_with h (thrown e) s = h e s
  handle_with h aborted s = (aborted, s)

  -- `try { m } catch (std::exception& e) { h e }`
  unfoldable pub try_catch : Exec S A → (Error → Exec S A) → Exec S A
  unfolding ◌>>=◌
  try_catch m h s = let r = m s in handle_with h r.0 r.1

  -- An exception that leaves the scope goes on after `d`, unless `d` throws too.
  abbrev pub leave : Exec S (Unit {ℓ}) → Outcome A → Exec S A
  leave d aborted s = (aborted, s)
  leave d (returned a) s = let q = d s in resume q.0 (λ _ t. (returned a, t)) q.1
  leave d (thrown e) s = let q = d s in resume q.0 (λ _ t. (thrown e, t)) q.1

  -- A `CapturingGuard`: `d` runs when the scope of `m` is left, also by an exception.
  unfoldable pub guarded : Exec S (Unit {ℓ}) → Exec S A → Exec S A
  unfolding ◌>>=◌
  guarded d m s = let r = m s in leave d r.0 r.1
