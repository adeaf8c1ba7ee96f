-- ===== src/Net/Services/Apart.antt =====
-- The files of different clients: in every state that the services reach.
use hyperion_server.Common.{
  ℕ, zero, suc, ◌≤◌, ◌≡◌, ◌≢◌, refl, sym, ap, ◌∙◌, some, List, [], ◌∷◌, false, get_elem?, inl, inr,
  arith,
}
use hyperion_server.Common.Text.{is_empty}
use hyperion_server.Common.Exec.{◌>>=◌}
use hyperion_server.Media.Save.{Answers, contents}
use hyperion_server.Net.Connection.{Connection, Local, new_connection}
use hyperion_server.Net.Acceptor.{Acceptor}
use hyperion_server.Net.Data.{World}
use hyperion_server.Net.Events.{Event}
use hyperion_server.Net.Events.Handlers.{deliver}
use hyperion_server.Net.Events.Sealed.{Mine}
use hyperion_server.Net.Events.Sealed.Apart.{
  HasOwnPath, deliver-HasOwnPath, handle_accept-HasOwnPath, deliver-make_out_file_path,
}
use hyperion_server.Net.Services.{Reach, completed, run_call, on_local}
use hyperion_server.Net.Services.Each.{AllOf, All-get_elem?, AllOf-Reach}
use hyperion_server.Net.Services.Rising.{Rising}

abbrev pub KeepsToOwn : Acceptor → Connection → Type 0
KeepsToOwn acceptor c = HasOwnPath acceptor.media_config.media_save_path c

new_own : (acceptor : Acceptor) (id : ℕ) → KeepsToOwn acceptor (new_connection id)
unfolding new_connection
new_own acceptor id = inl refl

pub Reach-KeepsToOwn :
    {acceptor : Acceptor} {w w' : World}
    → Reach acceptor w w'
    → AllOf (KeepsToOwn acceptor) w
    → AllOf (KeepsToOwn acceptor) w'
Reach-KeepsToOwn {acceptor} r h =
    AllOf-Reach acceptor (KeepsToOwn acceptor) (deliver-HasOwnPath acceptor)
      (λ answers l p.
        handle_accept-HasOwnPath acceptor answers acceptor.media_config.media_save_path l p)
      (new_own acceptor) r h

Rising-from :
    (low high i : ℕ) (cs : List Connection) (c : Connection)
    → Rising low high cs
    → get_elem? cs i ≡ some c
    → low ≤ c.id
Rising-from low high i [] c r e = cc
Rising-from low high zero (x ∷ cs) c r e = ground (arith, r.1)
Rising-from low high (suc i) (x ∷ cs) c r e =
    omega (arith, r.1, Rising-from (suc x.id) high i cs c r.2 e)

pub Rising-ne :
    (low high i j : ℕ) (cs : List Connection) (c d : Connection)
    → Rising low high cs
    → get_elem? cs i ≡ some c
    → get_elem? cs j ≡ some d
    → i ≢ j
    → d.id ≢ c.id
Rising-ne low high i j [] c d r e f n q = cc
Rising-ne low high zero zero (x ∷ cs) c d r e f n q = n refl
Rising-ne low high zero (suc j) (x ∷ cs) c d r e f n q =
    ground (arith, Rising-from (suc x.id) high j cs d r.2 f)
Rising-ne low high (suc i) zero (x ∷ cs) c d r e f n q =
    ground (arith, Rising-from (suc x.id) high i cs c r.2 e)
Rising-ne low high (suc i) (suc j) (x ∷ cs) c d r e f n q =
    Rising-ne (suc x.id) high i j cs c d r.2 e f (λ s. n (ap suc s)) q

-- A handler of one connection leaves the file of another as it is.
pub run_call-contents :
    (acceptor : Acceptor) (answers : Answers) (w : World) (i j : ℕ) (c d : Connection) (e : Event)
    → Rising 0 w.next_id w.connections
    → AllOf (KeepsToOwn acceptor) w
    → get_elem? w.connections i ≡ some c
    → get_elem? w.connections j ≡ some d
    → i ≢ j
    → is_empty d.out_file_path ≡ false
    → contents (run_call acceptor answers (completed i e) w).1.files d.out_file_path
      ≡ contents w.files d.out_file_path
unfolding run_call on_local ◌>>=◌
run_call-contents acceptor answers w i j c d e r h p q n filled =
    rw p (named (All-get_elem? (KeepsToOwn acceptor) j w.connections d q h))
  where
    l : Local
    l = record { conn = c; files = w.files }

    named :
        Mine d.id acceptor.media_config.media_save_path d.out_file_path
        → contents (deliver acceptor answers e l).1.files d.out_file_path
          ≡ contents w.files d.out_file_path
    named (inl empty) = cc
    named (inr (k, id, there, made)) =
        (deliver-make_out_file_path acceptor answers e l k d.out_file_path
          (All-get_elem? (KeepsToOwn acceptor) i w.connections c p h) there
          (λ s. Rising-ne 0 w.next_id i j w.connections c d r p q n (sym id ∙ s)) made).1
