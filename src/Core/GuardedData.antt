-- ===== src/Core/GuardedData.antt =====
-- include/core/guarded_data.h: data behind a mutex, and accesses that change it, each in its scope.
-- The accesses are numbered, and each uses the mutex that `lock_of` gives it: for one `GuardedData`
-- that is the same for all. An access reads the data, and writes what its operation makes of it.
-- `GetUnsafe` goes past the mutex.
pub mod Exclusion
pub mod Unsafe
use hyperion_server.Common.{
  ℕ, ◌≡◌, Bool, true, false, Option, none, some, List, [], ◌∷◌, ◌++◌, ◌==◌, if◌then◌else◌,
}

-- How far the scope of an access has come.
pub data Pc (T : Type 0) : Type 0 where
  outside : Pc T
  inside : Pc T
  has_read : T → Pc T
  has_written : Pc T

-- `data_`, who holds each `mutex_`, and the accesses.
pub record System (T : Type 0) : Type 0 where
  pub value : T
  pub owner : ℕ → Option ℕ
  pub pc : ℕ → Pc T

abbrev pub update : {A : Type 0} → (ℕ → A) → ℕ → A → ℕ → A
update f i a j = if i == j then a else f j

module _ {T : Type 0} where
  abbrev pub hold_mutex : (ℕ → ℕ) → ℕ → System T → System T
  hold_mutex lock_of i s = record s {
    owner = update s.owner (lock_of i) (some i);
    pc = update s.pc i inside;
  }

  -- `GuardedAccess(guarded_data)`: `lock` waits where another access holds the mutex.
  unfoldable pub guarded_access : (ℕ → ℕ) → ℕ → System T → Option (System T)
  guarded_access lock_of i s = elim (s.owner (lock_of i)) [
    | some j ↦ none
    | none ↦ some (hold_mutex lock_of i s)
  ]

  -- `*access`, read into a local variable.
  unfoldable pub read_value : ℕ → System T → System T
  read_value i s = record s { pc = update s.pc i (has_read s.value) }

  -- `*access = value`
  unfoldable pub write_value : ℕ → T → System T → System T
  write_value i value s = record s { value = value; pc = update s.pc i has_written }

  -- `~GuardedAccess()`
  unfoldable pub end_access : (ℕ → ℕ) → ℕ → System T → System T
  end_access lock_of i s = record s {
    owner = update s.owner (lock_of i) none;
    pc = update s.pc i outside;
  }

  -- `GetUnsafe()`, read, and written to.
  unfoldable pub get_unsafe : System T → T
  get_unsafe s = s.value

  unfoldable pub set_unsafe : T → System T → System T
  set_unsafe value s = record s { value = value }

  unfoldable pub new_system : T → System T
  new_system value = record { value = value; owner = λ m. none; pc = λ i. outside }

module _ {T : Type 0} (lock_of : ℕ → ℕ) (operation : ℕ → T → T) where
  -- What one access does next, and whose operation took effect.
  pub data Step (s : System T) : List ℕ → System T → Type 0 where
    enter :
        (i : ℕ) {t : System T}
        → s.pc i ≡ outside
        → guarded_access lock_of i s ≡ some t
        → Step s [] t
    reads : (i : ℕ) {t : System T} → s.pc i ≡ inside → read_value i s ≡ t → Step s [] t
    writes :
        (i : ℕ) (v : T) {t : System T} {log : List ℕ}
        → s.pc i ≡ has_read v
        → write_value i (operation i v) s ≡ t
        → i ∷ [] ≡ log
        → Step s log t
    leaves :
        (i : ℕ) {t : System T} → s.pc i ≡ has_written → end_access lock_of i s ≡ t → Step s [] t

  -- The states that the accesses reach in any order, with the writes in theirs.
  pub data Run (s : System T) : List ℕ → System T → Type 0 where
    here : Run s [] s
    next :
        {t u : System T} {log more : List ℕ} → Run s log t → Step t more u → Run s (log ++ more) u
