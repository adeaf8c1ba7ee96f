-- ===== src/Net/Events/Valid.antt =====
-- What holds of a connection between two handlers, and what its handlers may rely on.
use hyperion_server.Common.{ℕ, suc, ◌-◌, ◌≤◌, ◌<◌, ◌≡◌, refl, true, false, arith}
use hyperion_server.Common.Text.{is_empty}
use hyperion_server.Media.Save.{Answers}
use hyperion_server.Net.Connection.{Connection, rank}
use hyperion_server.Net.Events.{
  Event, written, read, received, send_waited, receive_waited, taken, is_pending,
}
use hyperion_server.Net.Events.Running.{pending, Knows, Holds, Any, Quiet, Sent, Pathed}
use hyperion_server.Net.Events.Callbacks.{Greeted}

-- What holds of a connection whenever no handler runs on it.
pub record IsValid (c : Connection) : Type 0 where
  -- every pending operation holds a reference
  pub counted : pending c ≤ c.ref_count
  pub unbuffered : c.buffered ≡ 0
  pub stream : c.out_file_open ≡ false
  pub one_write : c.writes ≤ 1
  pub writing : 0 < c.writes → rank c.status ≡ 0
  pub reading : 0 < c.reads → c.writes ≡ 0
  pub waiting : 0 < c.receive_waits → 0 < rank c.status
  pub saving : 0 < c.receives → is_empty c.out_file_path ≡ false

-- The references that no pending operation holds.
abbrev pub slack : Connection → ℕ
slack c = c.ref_count - pending c

-- What the handler of an event may rely on.
abbrev pub Before : Event → Knows
Before (written error) = Sent
Before (read error bytes) = Quiet
Before (received error bytes) = Pathed
Before (send_waited error) = Any
Before (receive_waited error) = Greeted

pub taken-Holds :
    (answers : Answers) (e : Event) (c : Connection)
    → IsValid c
    → is_pending e c ≡ true
    → Holds answers c.id (suc (slack c)) false (Before e) (taken e c)
unfolding taken
taken-Holds answers (written error) c v p =
    let pos : 0 < c.writes = ground arith in
    record {
      own_id = refl;
      counted = omega (arith, v.counted);
      exact = λ f. omega (arith, v.counted);
      unbuffered = v.unbuffered;
      stream = v.stream;
      one_write = omega (arith, v.one_write);
      writing = λ q. omega (arith, v.one_write);
      reading = λ q. omega (arith, v.reading q);
      waiting = v.waiting;
      saving = v.saving;
      known = (omega (arith, v.one_write), v.writing pos);
    }
taken-Holds answers (read error bytes) c v p =
    let pos : 0 < c.reads = ground arith in
    record {
      own_id = refl;
      counted = omega (arith, v.counted);
      exact = λ f. omega (arith, v.counted);
      unbuffered = v.unbuffered;
      stream = v.stream;
      one_write = v.one_write;
      writing = v.writing;
      reading = λ q. v.reading pos;
      waiting = v.waiting;
      saving = v.saving;
      known = v.reading pos;
    }
taken-Holds answers (received error bytes) c v p =
    let pos : 0 < c.receives = ground arith in
    record {
      own_id = refl;
      counted = omega (arith, v.counted);
      exact = λ f. omega (arith, v.counted);
      unbuffered = v.unbuffered;
      stream = v.stream;
      one_write = v.one_write;
      writing = v.writing;
      reading = v.reading;
      waiting = v.waiting;
      saving = λ q. v.saving pos;
      known = v.saving pos;
    }
taken-Holds answers (send_waited error) c v p =
    let pos : 0 < c.send_waits = ground arith in
    record {
      own_id = refl;
      counted = omega (arith, v.counted);
      exact = λ f. omega (arith, v.counted);
      unbuffered = v.unbuffered;
      stream = v.stream;
      one_write = v.one_write;
      writing = v.writing;
      reading = v.reading;
      waiting = v.waiting;
      saving = v.saving;
      known = tt;
    }
taken-Holds answers (receive_waited error) c v p =
    let pos : 0 < c.receive_waits = ground arith in
    record {
      own_id = refl;
      counted = omega (arith, v.counted);
      exact = λ f. omega (arith, v.counted);
      unbuffered = v.unbuffered;
      stream = v.stream;
      one_write = v.one_write;
      writing = v.writing;
      reading = v.reading;
      waiting = λ q. v.waiting pos;
      saving = v.saving;
      known = v.waiting pos;
    }

pub Holds-IsValid :
    (answers : Answers) (own k : ℕ) (X : Knows) (c : Connection)
    → Holds answers own k false X c
    → IsValid c
Holds-IsValid answers own k X c h = record {
  counted = omega (arith, h.counted);
  unbuffered = h.unbuffered;
  stream = h.stream;
  one_write = h.one_write;
  writing = h.writing;
  reading = h.reading;
  waiting = h.waiting;
  saving = h.saving;
}
