-- ===== src/Net/Events/Fields.antt =====
-- The invariant of a running handler, under the change of single fields.
use hyperion_server.Common.{ℕ, suc, ◌+◌, ◌-◌, ◌<◌, ◌≡◌, refl, Bool, true, false, arith}
use hyperion_server.Common.Text.{Text, is_empty}
use hyperion_server.Media.Prop.{MediaProp}
use hyperion_server.Media.Save.{Answers}
use hyperion_server.Net.Connection.{Connection, ConnectionStatus, rank}
use hyperion_server.Net.Events.Running.{Knows, Holds}

module _ {answers : Answers} {own k : ℕ} {X : Knows} where
  pub Holds-stream :
      (b b' : Bool) (c : Connection)
      → Holds answers own k b X c
      → Holds answers own k b' X (record c { out_file_open = b' })
  Holds-stream b b' c h = record {
    own_id = h.own_id;
    counted = h.counted;
    exact = h.exact;
    unbuffered = h.unbuffered;
    stream = refl;
    one_write = h.one_write;
    writing = h.writing;
    reading = h.reading;
    waiting = h.waiting;
    saving = h.saving;
    known = h.known;
  }

  pub Holds-socket :
      (b s : Bool) (c : Connection)
      → Holds answers own k b X c
      → Holds answers own k b X (record c { socket_open = s })
  Holds-socket b s c h = record {
    own_id = h.own_id;
    counted = h.counted;
    exact = h.exact;
    unbuffered = h.unbuffered;
    stream = h.stream;
    one_write = h.one_write;
    writing = h.writing;
    reading = h.reading;
    waiting = h.waiting;
    saving = h.saving;
    known = h.known;
  }

  pub Holds-expires :
      (b : Bool) (t : ℕ) (c : Connection)
      → Holds answers own k b X c
      → Holds answers own k b X (record c { expires_after = t })
  Holds-expires b t c h = record {
    own_id = h.own_id;
    counted = h.counted;
    exact = h.exact;
    unbuffered = h.unbuffered;
    stream = h.stream;
    one_write = h.one_write;
    writing = h.writing;
    reading = h.reading;
    waiting = h.waiting;
    saving = h.saving;
    known = h.known;
  }

  pub Holds-eof :
      (b e : Bool) (c : Connection)
      → Holds answers own k b X c
      → Holds answers own k b X (record c { received_eof = e })
  Holds-eof b e c h = record {
    own_id = h.own_id;
    counted = h.counted;
    exact = h.exact;
    unbuffered = h.unbuffered;
    stream = h.stream;
    one_write = h.one_write;
    writing = h.writing;
    reading = h.reading;
    waiting = h.waiting;
    saving = h.saving;
    known = h.known;
  }

  pub Holds-consume :
      (b : Bool) (n : ℕ) (c : Connection)
      → Holds answers own k b X c
      → Holds answers own k b X (record c { buffered = c.buffered - n })
  Holds-consume b n c h = record {
    own_id = h.own_id;
    counted = h.counted;
    exact = h.exact;
    unbuffered = omega (arith, h.unbuffered);
    stream = h.stream;
    one_write = h.one_write;
    writing = h.writing;
    reading = h.reading;
    waiting = h.waiting;
    saving = h.saving;
    known = h.known;
  }

  pub Holds-inc :
      (b : Bool) (c : Connection)
      → Holds answers own k b X c
      → Holds answers own (suc k) b X (record c { ref_count = c.ref_count + 1 })
  Holds-inc b c h = record {
    own_id = h.own_id;
    counted = omega (arith, h.counted);
    exact = λ f. omega (arith, h.exact f);
    unbuffered = h.unbuffered;
    stream = h.stream;
    one_write = h.one_write;
    writing = h.writing;
    reading = h.reading;
    waiting = h.waiting;
    saving = h.saving;
    known = h.known;
  }

  pub Holds-dec :
      (b : Bool) (c : Connection)
      → Holds answers own (suc k) b X c
      → Holds answers own k b X (record c { ref_count = c.ref_count - 1 })
  Holds-dec b c h = record {
    own_id = h.own_id;
    counted = omega (arith, h.counted);
    exact = λ f. omega (arith, h.exact f);
    unbuffered = h.unbuffered;
    stream = h.stream;
    one_write = h.one_write;
    writing = h.writing;
    reading = h.reading;
    waiting = h.waiting;
    saving = h.saving;
    known = h.known;
  }

  pub Holds-read :
      (b : Bool) (c : Connection)
      → c.writes ≡ 0
      → Holds answers own (suc k) b X c
      → Holds answers own k b X (record c { reads = c.reads + 1 })
  Holds-read b c w h = record {
    own_id = h.own_id;
    counted = omega (arith, h.counted);
    exact = λ f. omega (arith, h.exact f);
    unbuffered = h.unbuffered;
    stream = h.stream;
    one_write = h.one_write;
    writing = h.writing;
    reading = λ r. w;
    waiting = h.waiting;
    saving = h.saving;
    known = h.known;
  }

  pub Holds-receive :
      (b : Bool) (c : Connection)
      → is_empty c.out_file_path ≡ false
      → Holds answers own (suc k) b X c
      → Holds answers own k b X (record c { receives = c.receives + 1 })
  Holds-receive b c p h = record {
    own_id = h.own_id;
    counted = omega (arith, h.counted);
    exact = λ f. omega (arith, h.exact f);
    unbuffered = h.unbuffered;
    stream = h.stream;
    one_write = h.one_write;
    writing = h.writing;
    reading = h.reading;
    waiting = h.waiting;
    saving = λ r. p;
    known = h.known;
  }

  pub Holds-send_wait :
      (b : Bool) (c : Connection)
      → Holds answers own (suc k) b X c
      → Holds answers own k b X (record c { send_waits = c.send_waits + 1 })
  Holds-send_wait b c h = record {
    own_id = h.own_id;
    counted = omega (arith, h.counted);
    exact = λ f. omega (arith, h.exact f);
    unbuffered = h.unbuffered;
    stream = h.stream;
    one_write = h.one_write;
    writing = h.writing;
    reading = h.reading;
    waiting = h.waiting;
    saving = h.saving;
    known = h.known;
  }

  pub Holds-receive_wait :
      (b : Bool) (c : Connection)
      → 0 < rank c.status
      → Holds answers own (suc k) b X c
      → Holds answers own k b X (record c { receive_waits = c.receive_waits + 1 })
  Holds-receive_wait b c r h = record {
    own_id = h.own_id;
    counted = omega (arith, h.counted);
    exact = λ f. omega (arith, h.exact f);
    unbuffered = h.unbuffered;
    stream = h.stream;
    one_write = h.one_write;
    writing = h.writing;
    reading = h.reading;
    waiting = λ p. r;
    saving = h.saving;
    known = h.known;
  }

  -- A reference that was leaked because `prepare` threw.
  pub Holds-leak :
      (b : Bool) (c : Connection)
      → answers.prepare_throws ≡ true
      → Holds answers own (suc k) b X c
      → Holds answers own k b X c
  Holds-leak b c t h = record {
    own_id = h.own_id;
    counted = omega (arith, h.counted);
    exact = λ f. cc (f, t);
    unbuffered = h.unbuffered;
    stream = h.stream;
    one_write = h.one_write;
    writing = h.writing;
    reading = h.reading;
    waiting = h.waiting;
    saving = h.saving;
    known = h.known;
  }

  -- To set the status once no greeting is on its way.
  pub Holds-status :
      (b : Bool) (status : ConnectionStatus) (c : Connection)
      → 0 < rank status
      → c.writes ≡ 0
      → X c.writes status c.out_file_path c.media_prop
      → Holds answers own k b X c
      → Holds answers own k b X (record c { status = status })
  Holds-status b status c r w x h = record {
    own_id = h.own_id;
    counted = h.counted;
    exact = h.exact;
    unbuffered = h.unbuffered;
    stream = h.stream;
    one_write = h.one_write;
    writing = λ p. omega (arith, w);
    reading = h.reading;
    waiting = λ p. r;
    saving = h.saving;
    known = x;
  }

  pub Holds-directory :
      (b : Bool) (d : Text) (c : Connection)
      → Holds answers own k b X c
      → Holds answers own k b X (record c { out_file_directory = d })
  Holds-directory b d c h = record {
    own_id = h.own_id;
    counted = h.counted;
    exact = h.exact;
    unbuffered = h.unbuffered;
    stream = h.stream;
    one_write = h.one_write;
    writing = h.writing;
    reading = h.reading;
    waiting = h.waiting;
    saving = h.saving;
    known = h.known;
  }

  pub Holds-path :
      {Y : Knows} (b : Bool) (path : Text) (c : Connection)
      → is_empty path ≡ false
      → Y c.writes c.status path c.media_prop
      → Holds answers own k b X c
      → Holds answers own k b Y (record c { out_file_path = path })
  Holds-path b path c e y h = record {
    own_id = h.own_id;
    counted = h.counted;
    exact = h.exact;
    unbuffered = h.unbuffered;
    stream = h.stream;
    one_write = h.one_write;
    writing = h.writing;
    reading = h.reading;
    waiting = h.waiting;
    saving = λ r. e;
    known = y;
  }

  pub Holds-prop :
      {Y : Knows} (b : Bool) (p : MediaProp) (c : Connection)
      → Y c.writes c.status c.out_file_path p
      → Holds answers own k b X c
      → Holds answers own k b Y (record c { media_prop = p })
  Holds-prop b p c y h = record {
    own_id = h.own_id;
    counted = h.counted;
    exact = h.exact;
    unbuffered = h.unbuffered;
    stream = h.stream;
    one_write = h.one_write;
    writing = h.writing;
    reading = h.reading;
    waiting = h.waiting;
    saving = h.saving;
    known = y;
  }

  pub Holds-know :
      {Y : Knows} (b : Bool) (c : Connection)
      → Y c.writes c.status c.out_file_path c.media_prop
      → Holds answers own k b X c
      → Holds answers own k b Y c
  Holds-know b c y h = record {
    own_id = h.own_id;
    counted = h.counted;
    exact = h.exact;
    unbuffered = h.unbuffered;
    stream = h.stream;
    one_write = h.one_write;
    writing = h.writing;
    reading = h.reading;
    waiting = h.waiting;
    saving = h.saving;
    known = y;
  }
