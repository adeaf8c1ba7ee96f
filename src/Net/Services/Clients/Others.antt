-- ===== src/Net/Services/Clients/Others.antt =====
-- What the acceptor, the collector and the other clients leave of one client.
use mathlib.Core.Path.{subst}
use mathlib.Core.List.{append-nil}
use hyperion_server.Common.{
  ℕ, ◌≡◌, ◌≢◌, refl, sym, ap, ◌∙◌, Option, none, some, List, [], ◌++◌, get_elem?, Bool-cases, inl,
  inr, arith,
}
use hyperion_server.Common.Text.{Text}
use hyperion_server.Common.Exec.{try_catch, ◌>>=◌}
use hyperion_server.Media.Save.{Answers, contents}
use hyperion_server.Net.Props.{ErrorCode}
use hyperion_server.Net.Connection.{
  Connection, async_write, async_wait, set_timer_expires_after, inc_ref_count, on_conn,
}
use hyperion_server.Net.Data.{World, make_connection, add}
use hyperion_server.Net.Acceptor.{Acceptor, handle_accept}
use hyperion_server.Net.Gc.{sweep_due, setup_sweep_timer}
use hyperion_server.Net.Listener.{bytes_of}
use hyperion_server.Net.Events.{Event}
use hyperion_server.Net.Services.{
  do_async_accept, on_local, accept_completed, accepted, swept, completed, deliver_to, run_call,
}
use hyperion_server.Net.Services.Rising.{get_elem?-IsValid}
use hyperion_server.Net.Services.Valid.{IsSound}
use hyperion_server.Net.Services.Each.{AllOf}
use hyperion_server.Net.Services.Apart.{KeepsToOwn, run_call-contents}
use hyperion_server.Net.Services.Clients.{HasClient}
use hyperion_server.Net.Services.Clients.Places.{
  get_elem?-replace_last, get_elem?-sweep, get_elem?-set_at,
}

-- The client is still there, and its file has those bytes more.
abbrev pub Grown : ℕ → Text → World → List ℕ → World → Type 0
Grown id path w bytes v =
    HasClient id path v
    × (bytes_of (contents v.files path) ≡ bytes_of (contents w.files path) ++ bytes)

module _ (acceptor : Acceptor) (answers : Answers) (id : ℕ) (path : Text) (w : World) where
  -- A handler that leaves the connection and its file as they are.
  kept-Grown :
      (v : World) (h : HasClient id path w) (j : ℕ)
      → get_elem? v.connections j ≡ some h.conn
      → contents v.files path ≡ contents w.files path
      → Grown id path w [] v
  kept-Grown v h j there same = (
    record {
      place = j;
      conn = h.conn;
      there = there;
      own_id = h.own_id;
      stores = h.stores;
      accepted = h.accepted;
      connected = h.connected;
      receiving = h.receiving;
    },
    ap bytes_of same ∙ sym (append-nil _),
  )

  pub accepted-Grown :
      (error : Option ErrorCode)
      → HasClient id path w
      → Grown id path w [] (run_call acceptor answers (accepted error) w).1
  unfolding run_call accept_completed do_async_accept add make_connection on_local handle_accept
      async_write async_wait set_timer_expires_after inc_ref_count on_conn try_catch ◌>>=◌
  accepted-Grown (some error) h = elim (Bool-cases answers.accept_throws) [
    | inl a ↦ rw a (kept-Grown _ h h.place h.there refl)
    | inr a ↦ rw a (kept-Grown _ h h.place h.there refl)
  ]
  accepted-Grown none h =
      let behind =
        λ (c d : Connection). get_elem?-replace_last h.place w.connections c d h.conn h.there in
      elim (Bool-cases answers.accept_throws) [
        | inl a ↦ elim (Bool-cases answers.remote_throws) [
          | inl r ↦ rw (a, r) (kept-Grown _ h h.place h.there refl)
          | inr r ↦ elim (Bool-cases answers.expires_throws) [
            | inl e ↦ rw (a, r, e) (kept-Grown _ h h.place (behind _ _) refl)
            | inr e ↦ rw (a, r, e) (kept-Grown _ h h.place (behind _ _) refl)
          ]
        ]
        | inr a ↦ elim (Bool-cases answers.remote_throws) [
          | inl r ↦ rw (a, r) (kept-Grown _ h h.place h.there refl)
          | inr r ↦ elim (Bool-cases answers.expires_throws) [
            | inl e ↦ rw (a, r, e) (kept-Grown _ h h.place (behind _ _) refl)
            | inr e ↦ rw (a, r, e) (kept-Grown _ h h.place (behind _ _) refl)
          ]
        ]
      ]

  pub swept-Grown :
      (error : Option ErrorCode)
      → IsSound w
      → HasClient id path w
      → Grown id path w [] (run_call acceptor answers (swept error) w).1
  unfolding run_call sweep_due setup_sweep_timer ◌>>=◌
  swept-Grown error s h =
      let v = get_elem?-IsValid 0 w.next_id h.place w.connections h.conn h.there s.rising in
      let (j, there) =
        get_elem?-sweep h.place w.connections h.conn h.there
          (λ e. absurd (ground (arith, v.counted, h.receiving, e))) in
      elim (Bool-cases answers.expires_throws) [
        | inl e ↦ rw e (kept-Grown _ h j there refl)
        | inr e ↦ rw e (kept-Grown _ h j there refl)
      ]

  pub found_call :
      (i : ℕ) (e : Event) (c : Connection)
      → get_elem? w.connections i ≡ some c
      → deliver_to acceptor answers i e (some c) w ≡ run_call acceptor answers (completed i e) w
  unfolding run_call ◌>>=◌
  found_call i e c q = rw q refl

  others_there :
      (i : ℕ) (e : Event) (c : Connection) (j : ℕ) (d : Connection)
      → get_elem? w.connections j ≡ some d
      → i ≢ j
      → get_elem? (deliver_to acceptor answers i e (some c) w).1.connections j ≡ some d
  unfolding on_local
  others_there i e c j d there n = get_elem?-set_at i j w.connections _ d n there

  -- A handler of another connection.
  pub other-Grown :
      (i : ℕ) (e : Event) (c : Connection) (h : HasClient id path w)
      → IsSound w
      → AllOf (KeepsToOwn acceptor) w
      → get_elem? w.connections i ≡ some c
      → i ≢ h.place
      → Grown id path w [] (run_call acceptor answers (completed i e) w).1
  other-Grown i e c h s keeps q n =
      let v = get_elem?-IsValid 0 w.next_id h.place w.connections h.conn h.there s.rising in
      let same =
        run_call-contents acceptor answers w i h.place c h.conn e s.rising keeps q h.there n
          (v.saving h.receiving) in
      kept-Grown _ h h.place
        (rw⁻¹ (found_call i e c q) (others_there i e c h.place h.conn h.there n))
        (subst
          (λ p.
            contents (run_call acceptor answers (completed i e) w).1.files p ≡ contents w.files p)
          h.stores same)
