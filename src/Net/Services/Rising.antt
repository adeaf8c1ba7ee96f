-- ===== src/Net/Services/Rising.antt =====
-- The list of the connections: valid, and in the order of their identifiers.
use mathlib.Core.Path.{subst}
use hyperion_server.Common.{
  ℕ, zero, suc, ◌+◌, ◌≤◌, ◌≡◌, some, List, [], ◌∷◌, ◌++◌, get_elem?, Bool-cases, inl, inr, arith,
}
use hyperion_server.Net.Connection.{Connection, can_destruct}
use hyperion_server.Net.Gc.{sweep}
use hyperion_server.Net.Events.Valid.{IsValid}
use hyperion_server.Net.Services.{replace_last, set_at}

-- Valid connections whose identifiers rise along the list, from `low` and below `high`.
abbrev pub Rising : ℕ → ℕ → List Connection → Type 0
Rising low high [] = low ≤ high
Rising low high (c ∷ cs) = IsValid c × (low ≤ c.id) × Rising (suc c.id) high cs

pub Rising-low :
    (low low' high : ℕ) (cs : List Connection)
    → low' ≤ low
    → Rising low high cs
    → Rising low' high cs
Rising-low low low' high [] l h = omega arith
Rising-low low low' high (c ∷ cs) l h = (h.0, omega (arith, h.1), h.2)

pub Rising-sweep :
    (low high : ℕ) (cs : List Connection) → Rising low high cs → Rising low high (sweep cs)
unfolding sweep
Rising-sweep low high [] h = h
Rising-sweep low high (c ∷ cs) h = elim (Bool-cases (can_destruct c)) [
  | inl gone ↦ rw gone (
      Rising-low (suc c.id) low high (sweep cs) (omega (arith, h.1))
        (Rising-sweep (suc c.id) high cs h.2))
  | inr kept ↦ rw kept (h.0, h.1, Rising-sweep (suc c.id) high cs h.2)
]

pub Rising-append :
    (low high : ℕ) (cs : List Connection) (c : Connection)
    → Rising low high cs
    → IsValid c
    → c.id ≡ high
    → Rising low (high + 1) (cs ++ c ∷ [])
Rising-append low high [] c h v e = (v, omega arith, omega arith)
Rising-append low high (x ∷ cs) c h v e = (h.0, h.1, Rising-append (suc x.id) high cs c h.2 v e)

pub Rising-replace_last :
    (low high : ℕ) (cs : List Connection) (c d : Connection)
    → Rising low high (cs ++ c ∷ [])
    → IsValid d
    → d.id ≡ c.id
    → Rising low high (replace_last d (cs ++ c ∷ []))
unfolding replace_last
Rising-replace_last low high [] c d h v e = (v, omega (arith, h.1), omega (arith, h.2))
Rising-replace_last low high (x ∷ []) c d h v e =
    (h.0, h.1, Rising-replace_last (suc x.id) high [] c d h.2 v e)
Rising-replace_last low high (x ∷ y ∷ cs) c d h v e =
    (h.0, h.1, Rising-replace_last (suc x.id) high (y ∷ cs) c d h.2 v e)

pub Rising-set_at :
    (low high i : ℕ) (cs : List Connection) (c d : Connection)
    → get_elem? cs i ≡ some c
    → Rising low high cs
    → IsValid d
    → d.id ≡ c.id
    → Rising low high (set_at i d cs)
unfolding set_at
Rising-set_at low high i [] c d g h v e = cc
Rising-set_at low high zero (x ∷ cs) c d g h v e =
    let same : x.id ≡ d.id = ground arith in
    (v, omega (arith, h.1), Rising-low (suc x.id) (suc d.id) high cs (omega arith) h.2)
Rising-set_at low high (suc i) (x ∷ cs) c d g h v e =
    (h.0, h.1, Rising-set_at (suc x.id) high i cs c d g h.2 v e)

pub get_elem?-IsValid :
    (low high i : ℕ) (cs : List Connection) (c : Connection)
    → get_elem? cs i ≡ some c
    → Rising low high cs
    → IsValid c
get_elem?-IsValid low high i [] c g h = cc
get_elem?-IsValid low high zero (x ∷ cs) c g h =
    let same : x ≡ c = ground arith in subst IsValid same h.0
get_elem?-IsValid low high (suc i) (x ∷ cs) c g h = get_elem?-IsValid (suc x.id) high i cs c g h.2
