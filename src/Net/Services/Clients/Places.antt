-- ===== src/Net/Services/Clients/Places.antt =====
-- Where a connection stands in the list after a handler.
use mathlib.Core.Path.{subst}
use hyperion_server.Common.{
  ℕ, zero, suc, ◌≡◌, ◌≢◌, refl, sym, ap, false, some, List, [], ◌∷◌, ◌++◌, ◌==◌, get_elem?,
  Bool-cases, inl, inr, arith,
}
use hyperion_server.Net.Connection.{Connection, can_destruct}
use hyperion_server.Net.Gc.{sweep}
use hyperion_server.Net.Services.{replace_last, set_at}

pub get_elem?-replace_last :
    (i : ℕ) (cs : List Connection) (c d x : Connection)
    → get_elem? cs i ≡ some x
    → get_elem? (replace_last d (cs ++ c ∷ [])) i ≡ some x
unfolding replace_last
get_elem?-replace_last i [] c d x e = cc
get_elem?-replace_last zero (y ∷ []) c d x e = e
get_elem?-replace_last zero (y ∷ z ∷ cs) c d x e = e
get_elem?-replace_last (suc i) (y ∷ []) c d x e = cc
get_elem?-replace_last (suc i) (y ∷ z ∷ cs) c d x e = get_elem?-replace_last i (z ∷ cs) c d x e

pub get_elem?-sweep :
    (i : ℕ) (cs : List Connection) (x : Connection)
    → get_elem? cs i ≡ some x
    → x.ref_count ≢ 0
    → (j : ℕ) × (get_elem? (sweep cs) j ≡ some x)
unfolding sweep can_destruct
get_elem?-sweep i [] x e n = cc
get_elem?-sweep zero (c ∷ cs) x e n =
    let same : c ≡ x = cc in
    let kept : (c.ref_count == 0) ≡ false =
      subst (λ (z : Connection). (z.ref_count == 0) ≡ false) (sym same) (ground (arith, n)) in
    rw kept (0, e)
get_elem?-sweep (suc i) (c ∷ cs) x e n =
    let (j, there) = get_elem?-sweep i cs x e n in
    elim (Bool-cases (c.ref_count == 0)) [
      | inl gone ↦ rw gone (j, there)
      | inr kept ↦ rw kept (suc j, there)
    ]

pub get_elem?-set_at :
    (i j : ℕ) (cs : List Connection) (d x : Connection)
    → i ≢ j
    → get_elem? cs j ≡ some x
    → get_elem? (set_at i d cs) j ≡ some x
unfolding set_at
get_elem?-set_at i j [] d x n e = cc
get_elem?-set_at zero zero (c ∷ cs) d x n e = absurd (n refl)
get_elem?-set_at zero (suc j) (c ∷ cs) d x n e = e
get_elem?-set_at (suc i) zero (c ∷ cs) d x n e = e
get_elem?-set_at (suc i) (suc j) (c ∷ cs) d x n e =
    get_elem?-set_at i j cs d x (λ s. n (ap suc s)) e

pub set_at_there :
    (i : ℕ) (cs : List Connection) (c d : Connection)
    → get_elem? cs i ≡ some c
    → get_elem? (set_at i d cs) i ≡ some d
unfolding set_at
set_at_there i [] c d e = cc
set_at_there zero (x ∷ cs) c d e = refl
set_at_there (suc i) (x ∷ cs) c d e = set_at_there i cs c d e
