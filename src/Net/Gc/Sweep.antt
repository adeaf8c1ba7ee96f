-- ===== src/Net/Gc/Sweep.antt =====
-- What a pass of the collector removes.
use mathlib.Core.List.{Mem, Mem-prop, mem-cons, not-mem-nil}
use mathlib.Core.HLevel.{×_prop}
use mathlib.Core.Logic.Or
use hyperion_server.Common.{
  ℕ, ◌+◌, ◌≡◌, ◌≢◌, refl, ◌↔◌, inl, inr, List, [], ◌∷◌, All, ◌==◌, Bool-cases, arith,
}
use hyperion_server.Net.Connection.{Connection, can_destruct}
use hyperion_server.Net.Gc.{sweep}
use hyperion_server.Net.Events.Running.{pending}
use hyperion_server.Net.Events.Valid.{IsValid}

-- The operations that asio has pending for all connections.
unfoldable pub all_pending : List Connection → ℕ
all_pending [] = 0
all_pending (c ∷ cs) = pending c + all_pending cs

-- On valid connections a pass removes none that asio still has an operation of: no handler is left
-- with a connection that is gone.
pub all_pending-sweep :
    (cs : List Connection) → All IsValid cs → all_pending (sweep cs) ≡ all_pending cs
unfolding sweep all_pending can_destruct
all_pending-sweep [] v = refl
all_pending-sweep (c ∷ cs) v = ground (arith, all_pending-sweep cs v.1, v.0.counted)

kept_mem : (c : Connection) (cs : List Connection) → Mem c cs → c.ref_count ≢ 0 → Mem c (sweep cs)
unfolding sweep can_destruct
kept_mem c [] m n = absurd (not-mem-nil m)
kept_mem c (d ∷ cs) m n = elim (Bool-cases (d.ref_count == 0)) [
  | inl gone ↦
      rw gone
        (Or.elim Mem-prop (mem-cons.0 m) (λ e. absurd (n (ground arith))) (λ t. kept_mem c cs t n))
  | inr kept ↦ rw kept (
      Or.elim Mem-prop (mem-cons.0 m) (λ e. mem-cons.1 (Or.inl e))
        (λ t. mem-cons.1 (Or.inr (kept_mem c cs t n))))
]

referenced-prop : (c : Connection) (cs : List Connection) → IsProp (Mem c cs × (c.ref_count ≢ 0))
referenced-prop c cs = ×_prop Mem-prop (hlevel)

mem_kept : (c : Connection) (cs : List Connection) → Mem c (sweep cs) → Mem c cs × (c.ref_count ≢ 0)
unfolding sweep can_destruct
mem_kept c [] m = absurd (not-mem-nil m)
mem_kept c (d ∷ cs) m = elim (Bool-cases (d.ref_count == 0)) [
  | inl gone ↦ let (t, n) = mem_kept c cs (rw gone at m) in (mem-cons.1 (Or.inr t), n)
  | inr kept ↦
      Or.elim (referenced-prop c (d ∷ cs)) (mem-cons.0 (rw kept at m))
        (λ e. (mem-cons.1 (Or.inl e), λ z. ground arith))
        (λ t. let (u, n) = mem_kept c cs t in (mem-cons.1 (Or.inr u), n))
]

-- A pass keeps exactly the connections that are referenced.
pub mem-sweep :
    (c : Connection) (cs : List Connection) → Mem c (sweep cs) ↔ (Mem c cs × (c.ref_count ≢ 0))
mem-sweep c cs = (mem_kept c cs, λ p. kept_mem c cs p.0 p.1)
