-- ===== src/Net/Services/Held.antt =====
-- A connection with a reference that no pending operation holds, in the list of the connections.
use mathlib.Core.Path.{subst}
use hyperion_server.Common.{
  ℕ, zero, suc, ◌≤◌, ◌<◌, ◌≡◌, refl, ap, ◌∙◌, ◌⊎◌, inl, inr, false, some, List, [], ◌∷◌, ◌++◌,
  get_elem?, Bool-cases, arith,
}
use hyperion_server.Net.Connection.{Connection, can_destruct}
use hyperion_server.Net.Gc.{sweep}
use hyperion_server.Net.Events.Valid.{slack}
use hyperion_server.Net.Services.{replace_last, set_at}

-- The connection of that identifier is there, and has a reference that no pending operation holds.
abbrev pub Held : ℕ → List Connection → Type 0
Held id [] = ⊥
Held id (c ∷ cs) = ((c.id ≡ id) × (0 < slack c)) ⊎ Held id cs

pub Held-sweep : (id : ℕ) (cs : List Connection) → Held id cs → Held id (sweep cs)
unfolding sweep can_destruct
Held-sweep id [] h = elim h [ ]
Held-sweep id (c ∷ cs) (inl (e, s)) =
    let kept : can_destruct c ≡ false = ground arith in rw (kept, can_destruct) (inl (e, s))
Held-sweep id (c ∷ cs) (inr h) = elim (Bool-cases (can_destruct c)) [
  | inl gone ↦ rw (gone, can_destruct) (Held-sweep id cs h)
  | inr kept ↦ rw (kept, can_destruct) (inr (Held-sweep id cs h))
]

pub Held-append :
    (id : ℕ) (cs : List Connection) (d c : Connection)
    → Held id cs
    → Held id (replace_last d (cs ++ c ∷ []))
unfolding replace_last
Held-append id [] d c h = elim h [ ]
Held-append id (x ∷ []) d c (inl h) = inl h
Held-append id (x ∷ []) d c (inr h) = absurd h
Held-append id (x ∷ y ∷ cs) d c (inl h) = inl h
Held-append id (x ∷ y ∷ cs) d c (inr h) = inr (Held-append id (y ∷ cs) d c h)

pub Held-set_at :
    (id i : ℕ) (cs : List Connection) (c d : Connection)
    → get_elem? cs i ≡ some c
    → d.id ≡ c.id
    → slack c ≤ slack d
    → Held id cs
    → Held id (set_at i d cs)
unfolding set_at
Held-set_at id zero [] c d g e s h = elim h [ ]
Held-set_at id (suc i) [] c d g e s h = elim h [ ]
Held-set_at id zero (x ∷ cs) c d g e s (inl h) =
    let same : c ≡ x = ground arith in
    let s' : slack x ≤ slack d = subst (λ (z : Connection). slack z ≤ slack d) same s in
    inl (e ∙ ap (λ (z : Connection). z.id) same ∙ h.0, omega (arith, h.1, s'))
Held-set_at id zero (x ∷ cs) c d g e s (inr h) = inr h
Held-set_at id (suc i) (x ∷ cs) c d g e s (inl h) = inl h
Held-set_at id (suc i) (x ∷ cs) c d g e s (inr h) = inr (Held-set_at id i cs c d g e s h)

pub Held-set_new :
    (i : ℕ) (cs : List Connection) (c d : Connection)
    → get_elem? cs i ≡ some c
    → 0 < slack d
    → Held d.id (set_at i d cs)
unfolding set_at
Held-set_new i [] c d g p = cc
Held-set_new zero (x ∷ cs) c d g p = inl (refl, p)
Held-set_new (suc i) (x ∷ cs) c d g p = inr (Held-set_new i cs c d g p)
