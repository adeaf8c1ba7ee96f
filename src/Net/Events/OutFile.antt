-- ===== src/Net/Events/OutFile.antt =====
-- The out file of a connection while a handler runs, and re-arming the receive.
use hyperion_server.Common.{
  ℕ, zero, suc, ◌+◌, ◌<◌, ◌≡◌, ◌≢◌, refl, Bool, true, false, not, Option, none, some, List, [], ◌∷◌,
  ◌++◌, ◌==◌, length, get_elem?, Option-cases, inl, inr, if◌then◌else◌, arith,
}
use hyperion_server.Common.Text.{Text, is_empty, codes}
use hyperion_server.Common.Digits.{to_string}
use hyperion_server.Common.Exec.{Exec, modify, Outcome, returned, thrown, aborted}
use hyperion_server.Common.Exec.Triple.{
  Triple, Triple-pure, Triple-look, Triple-read, Triple-modify, Triple-assert, Triple-may_throw,
  Triple-then, Triple-guarded, Ends, Triple-if, Triple-weaken,
}
use hyperion_server.Media.Prop.{get_type}
use hyperion_server.Media.Save.{Files, Answers, make_save_file}
use hyperion_server.Net.Connection.{
  Connection, Local, receive_buf_size, on_files, file_ext, save_name, make_out_file_path, set_path,
  create_out_file, begin_out_files, append_out_file, open_out_file, close_out_file,
}
use hyperion_server.Net.Listener.{put_byte?, put_byte, save_bytes, save_received, do_async_receive}
use hyperion_server.Net.Events.Running.{Knows, Holds, Any, Named, Pathed}
use hyperion_server.Net.Events.Fields.{Holds-stream, Holds-directory, Holds-path, Holds-know}
use hyperion_server.Net.Events.Operations.{
  On, Triple-on_conn, Unprepared, get_streambuf-keeps, async_receive-keeps,
}

abbrev Anything : Files → Type 0
Anything files = Unit

make_save_file-ends :
    (answers : Answers) (path : Text)
    → Triple Anything (make_save_file answers path) (λ _. Anything) Anything
unfolding make_save_file
make_save_file-ends answers path =
    Triple-then (Triple-may_throw _ _)
      (Triple-then (Triple-may_throw _ _) (Triple-modify _ (λ s p. tt)))

files_kept :
    (P : Connection → Type 0) (c : Connection)
    → P c
    → (r : Outcome (Unit {0})) (files : Files) → Ends (λ _. Anything) Anything r files
    → Ends (λ (u : Unit {0}). On P) (On P) r (record { conn = c; files = files })
files_kept P c p (returned u) files h = p
files_kept P c p (thrown e) files h = p
files_kept P c p aborted files h = h

Triple-on_files :
    (P : Connection → Type 0) (m : Exec Files (Unit {0}))
    → Triple Anything m (λ _. Anything) Anything
    → Triple (On P) (on_files m) (λ _. On P) (On P)
unfolding on_files
Triple-on_files P m t = record {
  at = λ l p. files_kept P l.conn p (m l.files).0 (m l.files).1 (t.at l.files tt);
}

is_empty-append : (xs : Text) (y : ℕ) (ys : Text) → is_empty (xs ++ y ∷ ys) ≡ false
is_empty-append [] y ys = refl
is_empty-append (x ∷ xs) y ys = refl

is_empty-append_right : (xs ys : Text) → is_empty ys ≡ false → is_empty (xs ++ ys) ≡ false
is_empty-append_right [] ys h = h
is_empty-append_right (x ∷ xs) ys h = refl

-- A connection whose media type has a file name gets a path, and it is not empty.
pub make_out_file_path-some :
    (c : Connection)
    → file_ext (get_type c.media_prop) ≢ none
    → (path : Text) × (make_out_file_path c ≡ some path) × (is_empty path ≡ false)
unfolding make_out_file_path
make_out_file_path-some c named = elim (Option-cases (file_ext (get_type c.media_prop))) [
  | inl e ↦ absurd (named e)
  | inr (ext, e) ↦ (
    c.out_file_directory ++ save_name c.out_file_directory c.id ext,
    rw (e, make_out_file_path),
    is_empty-append_right c.out_file_directory _ (
        is_empty-append_right (if is_empty c.out_file_directory then [] else codes "/") _
          (is_empty-append (to_string c.id) b'.' ext)),
  )
]

module _ (answers : Answers) (own k : ℕ) (X : Knows) where
  create_out_file-Holds :
      Triple
        (On (Holds answers own k false X))
        (create_out_file answers)
        (λ _. On (Holds answers own k true X))
        (On (Holds answers own k false X))
  unfolding create_out_file
  create_out_file-Holds = Triple-look _ λ path.
      Triple-then
        (Triple-on_files (Holds answers own k false X) _ (make_save_file-ends answers path))
        (Triple-on_conn (Holds answers own k false X) (Holds answers own k true X)
          (λ c h. Holds-stream false true c h))

  close_out_file-Holds :
      (b : Bool) (E : Local → Type 0)
      → Triple
          (On (Holds answers own k b X))
          close_out_file
          (λ _. On (Holds answers own k false X))
          E
  unfolding close_out_file
  close_out_file-Holds b E =
      Triple-on_conn (Holds answers own k b X) (Holds answers own k false X)
        (λ c h. Holds-stream b false c h)

get_elem?-some :
    {A : Type 0} (xs : List A) (i : ℕ) → i < length xs → (x : A) × (get_elem? xs i ≡ some x)
get_elem?-some [] i h = absurd (omega arith)
get_elem?-some (x ∷ xs) zero h = (x, refl)
get_elem?-some (x ∷ xs) (suc i) h = get_elem?-some xs i (omega arith)

pub conn-put_byte : (byte : ℕ) (l : Local) → (put_byte byte l).conn ≡ l.conn
unfolding put_byte
conn-put_byte byte l = ground arith

append_out_file-Holds :
    (answers : Answers) (own k : ℕ) (l : Local)
    → Holds answers own k false Pathed l.conn
    → Holds answers own k true Pathed (append_out_file l).conn
unfolding append_out_file
append_out_file-Holds answers own k l h = Holds-stream false true l.conn h

module _ (answers : Answers) (own k : ℕ) where
  put_byte?-keeps :
      (byte : Option ℕ) (E : Local → Type 0)
      → (b : ℕ) × (byte ≡ some b)
      → Triple
          (On (Holds answers own k true Pathed))
          (put_byte? byte)
          (λ _. On (Holds answers own k true Pathed))
          E
  unfolding put_byte?
  put_byte?-keeps none E (b, e) = cc
  put_byte?-keeps (some byte) E e = record { at = λ l h. rw (conn-put_byte byte l) h }

  set_path-Holds :
      (path : Option Text)
      → Triple
          (λ l. Holds answers own k false Named l.conn × (path ≡ make_out_file_path l.conn))
          (set_path path)
          (λ _. On (Holds answers own k false Pathed))
          (On (Holds answers own k false Any))
  unfolding set_path
  set_path-Holds none = record {
    at = λ l p. let (path, e, n) = make_out_file_path-some l.conn p.0.known.1 in cc (p.1, e);
  }
  set_path-Holds (some path) = record {
    at = λ l p.
        let (path', e, n) = make_out_file_path-some l.conn p.0.known.1 in
        let same : path ≡ path' = cc (p.1, e) in
        let named : is_empty path ≡ false = rw same n in
        Holds-path false path l.conn named named p.0;
  }

  -- Whatever the file system answers, the assertions of `BeginOutFiles` hold, and where it returns
  -- the connection has a path.
  pub begin_out_files-Holds :
      (directory : Text)
      → Triple
          (On (Holds answers own k false Named))
          (begin_out_files answers directory)
          (λ _. On (Holds answers own k false Pathed))
          (On (Holds answers own k false Any))
  unfolding begin_out_files
  begin_out_files-Holds directory =
      Triple-then
        (Triple-on_conn (Holds answers own k false Named) (Holds answers own k false Named)
          (λ c h. Holds-directory false directory c h))
        (Triple-read λ path. Triple-then (set_path-Holds path) (
          Triple-then
            (Triple-weaken (create_out_file-Holds answers own k Pathed) (λ l h. h) (λ u l h. h)
              (λ l h. Holds-know false l.conn tt h))
            (close_out_file-Holds answers own k Pathed true _)))

  -- A path that was begun opens or throws: no stream is left that is not open.
  open_out_file-Holds :
      Triple
        (On (Holds answers own k false Pathed))
        (open_out_file answers)
        (λ _. On (Holds answers own k true Pathed))
        (On (Holds answers own k false Pathed))
  unfolding open_out_file
  open_out_file-Holds = Triple-read λ path.
      Triple-then (Triple-assert _ (λ l p. nonempty path l p)) (
        Triple-weaken
          (Triple-read λ is_open. Triple-then (Triple-assert _ (λ l p. shut is_open l p)) (
            Triple-weaken
              (Triple-if answers.append_opens (append-Holds _)
                (create_out_file-Holds answers own k Pathed))
              (λ l p. p.0) (λ u l h. h) (λ l h. h)))
          (λ l p. p.0) (λ u l h. h) (λ l h. h))
    where
      nonempty :
          (path : Text) (l : Local)
          → Holds answers own k false Pathed l.conn × (path ≡ l.out_file_path)
          → not (is_empty path) ≡ true
      nonempty path l p = rw (p.1, p.0.known)

      shut :
          (is_open : Bool) (l : Local)
          → Holds answers own k false Pathed l.conn × (is_open ≡ l.out_file_open)
          → not is_open ≡ true
      shut is_open l p = rw (p.1, p.0.stream)

      append-Holds :
          (E : Local → Type 0)
          → Triple
              (On (Holds answers own k false Pathed))
              (modify append_out_file)
              (λ _. On (Holds answers own k true Pathed))
              E
      append-Holds E = Triple-modify append_out_file (append_out_file-Holds answers own k)

  -- The loop reads the bytes that it was given, and no others.
  save_bytes-keeps :
      (left i : ℕ) (bytes : List ℕ) (E : Local → Type 0)
      → i + left ≡ length bytes
      → Triple
          (On (Holds answers own k true Pathed))
          (save_bytes left i bytes)
          (λ _. On (Holds answers own k true Pathed))
          E
  unfolding save_bytes
  save_bytes-keeps zero i bytes E e = Triple-pure tt (λ l h. h)
  save_bytes-keeps (suc left) i bytes E e =
      Triple-then (put_byte?-keeps (get_elem? bytes i) E (get_elem?-some bytes i (omega arith)))
        (save_bytes-keeps left (i + 1) bytes E (omega arith))

  -- The stream is closed again in every case.
  pub save_received-keeps :
      (bytes : List ℕ)
      → Triple
          (On (Holds answers own k false Pathed))
          (save_received answers bytes)
          (λ _. On (Holds answers own k false Pathed))
          (On (Holds answers own k false Pathed))
  unfolding save_received
  save_received-keeps bytes = Triple-then open_out_file-Holds (
      Triple-guarded
        (save_bytes-keeps (length bytes) 0 bytes (On (Holds answers own k true Pathed))
          (omega arith))
        (λ _. close_out_file-Holds answers own k Pathed true _)
        (close_out_file-Holds answers own k Pathed true _))

  -- A connection with a path, referenced by the handler that runs, starts to receive. It throws only
  -- where `prepare` does.
  pub do_async_receive-keeps :
      Triple
        (On (Holds answers own (suc k) false Pathed))
        (do_async_receive answers)
        (λ _. On (Holds answers own (suc k) false Pathed))
        (Unprepared answers own (suc k) Pathed false)
  unfolding do_async_receive
  do_async_receive-keeps = Triple-then (get_streambuf-keeps answers own k Pathed false _) (
      Triple-read λ size. Triple-then (Triple-assert _ (λ l p. empty size l p)) (
        Triple-weaken
          (async_receive-keeps answers own (suc k) Pathed false receive_buf_size (omega arith)
            (λ w s p m h. h))
          (λ l p. p.0) (λ u l h. h) (λ l h. h)))
    where
      empty :
          (size : ℕ) (l : Local)
          → Holds answers own (suc k) false Pathed l.conn × (size ≡ l.buffered)
          → (size == 0) ≡ true
      empty size l p = ground (arith, p.0.unbuffered, p.1)
