-- ===== src/Net/Listener/Saving.antt =====
-- The bytes of a client in its file.
use mathlib.Core.List.{append_assoc, append-nil}
use hyperion_server.Common.{
  ℕ, ◌+◌, ◌≡◌, refl, sym, ap, ◌∙◌, true, false, some, List, [], ◌∷◌, ◌++◌, get_elem?, length,
  length-append, Option-cases, inl, inr,
}
use hyperion_server.Common.Text.{Text, is_empty, same_text, same_text_iff}
use hyperion_server.Common.Exec.{returned, guarded, ◌>>=◌}
use hyperion_server.Media.Save.{contents, put_file, Answers}
use hyperion_server.Net.Connection.{
  Connection, Local, open_out_file, append_out_file, close_out_file, on_conn,
}
use hyperion_server.Net.Listener.{put_byte, put_byte?, save_bytes, save_received, bytes_of}

-- One byte after the other.
abbrev put_bytes : List ℕ → Local → Local
put_bytes [] l = l
put_bytes (b ∷ bytes) l = put_bytes bytes (put_byte b l)

get_elem?-middle :
    (before after : List ℕ) (b : ℕ) → get_elem? (before ++ b ∷ after) (length before) ≡ some b
get_elem?-middle [] after b = refl
get_elem?-middle (c ∷ before) after b = get_elem?-middle before after b

save_bytes-put_bytes :
    (before bytes : List ℕ) (l : Local)
    → save_bytes (length bytes) (length before) (before ++ bytes) l
      ≡ (returned tt, put_bytes bytes l)
unfolding save_bytes put_byte? ◌>>=◌
save_bytes-put_bytes before [] l = refl
save_bytes-put_bytes before (b ∷ bytes) l =
    let next : length before + 1 ≡ length (before ++ b ∷ []) =
      sym (length-append before (b ∷ [])) in
    rw (get_elem?-middle before bytes b, next, ← append_assoc before (b ∷ []) bytes)
      (save_bytes-put_bytes (before ++ b ∷ []) bytes (put_byte b l))

same_text_refl : (s : Text) → same_text s s ≡ true
same_text_refl s = let i = same_text_iff s s in i.1 refl

abbrev with_file : Local → List ℕ → Local
with_file l bytes = record l { files = put_file l.out_file_path bytes l.files }

put_byte-with_file :
    (b : ℕ) (old : List ℕ) (l : Local)
    → l.out_file_open ≡ true
    → contents l.files l.out_file_path ≡ some old
    → put_byte b l ≡ with_file l (old ++ b ∷ [])
unfolding put_byte
put_byte-with_file b old l o e = rw (o, e) refl

-- The bytes stand behind those that the file had, and no other file is touched.
pub record HasSaved (bytes old : List ℕ) (l l' : Local) : Type 0 where
  pub kept : l'.conn ≡ l.conn
  pub appended : contents l'.files l.out_file_path ≡ some (old ++ bytes)
  pub others :
      (path : Text)
      → same_text l.out_file_path path ≡ false
      → contents l'.files path ≡ contents l.files path

put_bytes-HasSaved :
    (bytes old : List ℕ) (l : Local)
    → l.out_file_open ≡ true
    → contents l.files l.out_file_path ≡ some old
    → HasSaved bytes old l (put_bytes bytes l)
unfolding put_file contents
put_bytes-HasSaved [] old l o e = record {
  kept = refl;
  appended = e ∙ ap some (sym (append-nil old));
  others = λ path n. refl;
}
put_bytes-HasSaved (b ∷ bytes) old l o e =
    let h =
      put_bytes-HasSaved bytes (old ++ b ∷ []) (with_file l (old ++ b ∷ [])) o
        (rw (same_text_refl l.out_file_path) refl) in
    rw (put_byte-with_file b old l o e) (record {
      kept = h.kept;
      appended = h.appended ∙ ap some (append_assoc old (b ∷ []) bytes);
      others = λ path n. h.others path n ∙ rw n refl;
    })

-- What `outFile_.open` leaves: an open file with the bytes it had, or with none.
pub opened-HasSaved :
    (l : Local)
    → HasSaved []
        (bytes_of (contents l.files l.out_file_path))
        (record l { conn = record l.conn { out_file_open = true } })
        (append_out_file l)
unfolding append_out_file put_file contents
opened-HasSaved l = elim (Option-cases (contents l.files l.out_file_path)) [
  | inl e ↦ rw e (record {
    kept = refl;
    appended = rw (same_text_refl l.out_file_path) refl;
    others = λ path n. rw n refl;
  })
  | inr (bytes, e) ↦ rw e (record {
    kept = refl;
    appended = e ∙ ap some (sym (append-nil bytes));
    others = λ path n. refl;
  })
]

-- For a connection with a path whose file is closed, where the file opens: what is received stands
-- behind what the file had; every other file and the connection are as before, and the file is
-- closed again.
pub save_received-HasSaved :
    (answers : Answers) (bytes : List ℕ) (l : Local)
    → answers.append_opens ≡ true
    → is_empty l.out_file_path ≡ false
    → l.out_file_open ≡ false
    → ((save_received answers bytes l).0 ≡ returned tt)
      × HasSaved bytes
          (bytes_of (contents l.files l.out_file_path))
          l
          (save_received answers bytes l).1
unfolding save_received append_out_file open_out_file close_out_file guarded on_conn ◌>>=◌
save_received-HasSaved answers bytes l a p o =
    let old : List ℕ = bytes_of (contents l.files l.out_file_path) in
    let opened = opened-HasSaved l in
    let h =
      put_bytes-HasSaved bytes old (append_out_file l) refl
        (opened.appended ∙ ap some (append-nil old)) in
    rw (a, p, o)
      (rw (save_bytes-put_bytes [] bytes (append_out_file l)) (
        refl,
        record {
          kept = ap (λ (c : Connection). record c { out_file_open = false }) h.kept;
          appended = h.appended;
          others = λ path n. h.others path n ∙ opened.others path n;
        },
      ))
