-- ===== src/Net/Services/Clients/Growing.antt =====
-- The file of one client among the others, handler by handler.
use mathlib.Core.Path.{subst}
use mathlib.Core.List.{append-nil, append_assoc}
use hyperion_server.Common.{
  ℕ, ◌<◌, ◌≡◌, ◌≢◌, refl, sym, ap, ◌∙◌, true, false, Option, none, some, List, [], ◌++◌, ◌==◌,
  get_elem?, if◌then◌else◌, Bool-cases, inl, inr, arith,
}
use hyperion_server.Common.Text.{Text}
use hyperion_server.Common.Exec.{Outcome}
use hyperion_server.Media.Save.{Answers, contents}
use hyperion_server.Net.Connection.{Connection, active}
use hyperion_server.Net.Data.{World}
use hyperion_server.Net.Acceptor.{Acceptor}
use hyperion_server.Net.Listener.{bytes_of}
use hyperion_server.Net.Events.{Event, is_pending}
use hyperion_server.Net.Events.Counting.{Few}
use hyperion_server.Net.Services.{
  on_local, Call, accepted, swept, completed, is_due, deliver_to, run_call, Reach, ran, next, here,
}
use hyperion_server.Net.Services.Rising.{get_elem?-IsValid}
use hyperion_server.Net.Services.Valid.{IsSound, Reach-IsSound}
use hyperion_server.Net.Services.Each.{AllOf, All-get_elem?}
use hyperion_server.Net.Services.Counting.{Reach-Few}
use hyperion_server.Net.Services.Apart.{KeepsToOwn, Reach-KeepsToOwn, Rising-ne}
use hyperion_server.Net.Services.Clients.{
  HasClient, brings, gives, bytes_for, is_served, serves, ClientRun, started, continued,
}
use hyperion_server.Net.Services.Clients.Places.{set_at_there}
use hyperion_server.Net.Services.Clients.Others.{
  Grown, accepted-Grown, swept-Grown, found_call, other-Grown,
}
use hyperion_server.Net.Services.Clients.Own.{deliver-Grows}

module _ (acceptor : Acceptor) (answers : Answers) (id : ℕ) (path : Text) (w : World) where
  -- A handler of the connection itself.
  own-Grown :
      (i : ℕ) (e : Event) (c : Connection)
      → IsSound w
      → AllOf (Few 1 1 1) w
      → get_elem? w.connections i ≡ some c
      → c.id ≡ id
      → c.out_file_path ≡ path
      → c.status ≡ active
      → c.socket_open ≡ true
      → 0 < c.receives
      → is_pending e c ≡ true
      → is_served answers e ≡ true
      → Grown id path w (brings e) (deliver_to acceptor answers i e (some c) w).1
  unfolding on_local
  own-Grown i e c s few q own stores ready open_socket armed p served =
      let v = get_elem?-IsValid 0 w.next_id i w.connections c q s.rising in
      let g =
        deliver-Grows acceptor answers c w.files ready open_socket armed e v
          (All-get_elem? (Few 1 1 1) i w.connections c q few) p served in
      (
        record {
          place = i;
          conn = _;
          there = set_at_there i w.connections c _ q;
          own_id = g.own_id ∙ own;
          stores = g.stores ∙ stores;
          accepted = g.accepted;
          connected = g.connected;
          receiving = g.receiving;
        },
        rw (← stores) g.file,
      )

  completed-Grown :
      (i : ℕ) (e : Event) (c : Connection) (h : HasClient id path w)
      → IsSound w
      → AllOf (KeepsToOwn acceptor) w
      → AllOf (Few 1 1 1) w
      → get_elem? w.connections i ≡ some c
      → is_pending e c ≡ true
      → (if c.id == id then is_served answers e else true) ≡ true
      → Grown id path w
          (if c.id == id then brings e else [])
          (run_call acceptor answers (completed i e) w).1
  completed-Grown i e c h s keeps few q p served = elim (Bool-cases (i == h.place)) [
    | inl at_own ↦
        let one_place : i ≡ h.place = ground (arith, at_own) in
        let same : h.conn ≡ c = cc in
        let own : c.id ≡ id = rw (← same) h.own_id in
        let mine : (c.id == id) ≡ true = ground (arith, own) in
        rw mine (
          rw⁻¹ (found_call acceptor answers id path w i e c q) (
            own-Grown i e c s few q own (rw (← same) h.stores) (rw (← same) h.accepted)
              (rw (← same) h.connected) (rw (← same) h.receiving) p (rw mine at served)))
    | inr apart ↦
        let n : i ≢ h.place = ground (arith, apart) in
        let ne : h.conn.id ≢ c.id =
          Rising-ne 0 w.next_id i h.place w.connections c h.conn s.rising q h.there n in
        let not_mine : (c.id == id) ≡ false = ground (arith, ne, h.own_id) in
        rw not_mine (other-Grown acceptor answers id path w i e c h s keeps q n)
  ]

  looked_Grown :
      (i : ℕ) (e : Event) (o : Option Connection)
      → o ≡ get_elem? w.connections i
      → IsSound w
      → AllOf (KeepsToOwn acceptor) w
      → AllOf (Few 1 1 1) w
      → HasClient id path w
      → is_due (completed i e) w ≡ true
      → serves id answers (completed i e) w ≡ true
      → Grown id path w (bytes_for id (brings e) o) (run_call acceptor answers (completed i e) w).1
  looked_Grown i e none q s keeps few h d served = cc (rw (← q) at d)
  looked_Grown i e (some c) q s keeps few h d served =
      completed-Grown i e c h s keeps few (sym q) (rw (← q) at d) (rw (← q) at served)

  run_call-Grown :
      (call : Call)
      → IsSound w
      → AllOf (KeepsToOwn acceptor) w
      → AllOf (Few 1 1 1) w
      → HasClient id path w
      → is_due call w ≡ true
      → serves id answers call w ≡ true
      → Grown id path w (gives id call w) (run_call acceptor answers call w).1
  run_call-Grown (accepted error) s keeps few h d served =
      accepted-Grown acceptor answers id path w error h
  run_call-Grown (swept error) s keeps few h d served =
      swept-Grown acceptor answers id path w error s h
  run_call-Grown (completed i e) s keeps few h d served =
      looked_Grown i e (get_elem? w.connections i) refl s keeps few h d served

module _ (acceptor : Acceptor) (id : ℕ) (path : Text) (w : World) (s : IsSound w)
    (keeps : AllOf (KeepsToOwn acceptor) w) (few : AllOf (Few 1 1 1) w)
    (h : HasClient id path w) where
  ClientRun-Reach :
      {bytes : List ℕ} {v : World} → ClientRun acceptor id w bytes v → Reach acceptor w v
  ClientRun-Reach started = here
  ClientRun-Reach (continued answers call r served due e q) =
      next (ClientRun-Reach r) (ran answers call due e)

  pub ClientRun-Grown :
      {bytes : List ℕ} {v : World} → ClientRun acceptor id w bytes v → Grown id path w bytes v
  ClientRun-Grown started = (h, sym (append-nil _))
  ClientRun-Grown (continued {v} {u} {bytes} answers call r served due e q) =
      let (h', b) = ClientRun-Grown r in
      let reach = ClientRun-Reach r in
      let (k, g) =
        run_call-Grown acceptor answers id path v call (Reach-IsSound reach s)
          (Reach-KeepsToOwn reach keeps) (Reach-Few reach s few) h' due served in
      let ended = ap (λ (o : Outcome (Unit {0}) × World). o.1) e in
      (
        subst (HasClient id path) ended k,
        ap (λ (x : World). bytes_of (contents x.files path)) (sym ended)
            ∙ g
            ∙ ap (λ o. o ++ gives id call v) b
            ∙ append_assoc (bytes_of (contents w.files path)) bytes (gives id call v)
            ∙ ap (λ o. bytes_of (contents w.files path) ++ o) q,
      )
