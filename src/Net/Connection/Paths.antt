-- ===== src/Net/Connection/Paths.antt =====
-- Where the media of a connection is stored.
use mathlib.Core.List.{append_assoc}
use hyperion_server.Common.{
  ℕ, zero, suc, ◌+◌, ◌-◌, ◌*◌, ◌/◌, ◌%◌, ◌≤◌, ◌≡◌, ◌≢◌, refl, sym, ap, ◌∙◌, some, [], ◌∷◌, ◌++◌,
  ◌==◌, ltb, if◌then◌else◌, Bool-cases, Option-cases, inl, inr, arith, length,
}
use hyperion_server.Common.Text.{Text, codes, is_empty}
use hyperion_server.Common.Digits.{digits, to_string}
use hyperion_server.Core.Utility.{drop}
use hyperion_server.Media.Prop.{get_type}
use hyperion_server.Net.Connection.{Connection, file_ext, save_name, make_out_file_path}

-- The number whose digits stand before the dot, after a number `acc`.
abbrev number : ℕ → Text → ℕ
number acc [] = acc
number acc (c ∷ s) = let rest = number (acc * 10 + (c - 48)) s in if c == b'.' then acc else rest

number_digit :
    (acc c : ℕ) (s : Text) → b'0' ≤ c → number acc (c ∷ s) ≡ number (acc * 10 + (c - 48)) s
number_digit acc c s h = ground arith

number-digits : (fuel n : ℕ) (s : Text) → n ≤ fuel → number 0 (digits fuel n ++ s) ≡ number n s
unfolding digits
number-digits zero n s h =
    number_digit 0 (b'0' + n % 10) s (omega arith) ∙ ap (λ k. number k s) (omega arith)
number-digits (suc fuel) n s h = elim (Bool-cases (ltb n 10)) [
  | inl e ↦ rw e (number_digit 0 (b'0' + n) s (omega arith) ∙ ap (λ k. number k s) (omega arith))
  | inr e ↦ rw e (
      let small : n / 10 ≤ fuel = ground arith in
      ap (number 0) (append_assoc (digits fuel (n / 10)) ((b'0' + n % 10) ∷ []) s)
      ∙ number-digits fuel (n / 10) ((b'0' + n % 10) ∷ s) small
      ∙ number_digit (n / 10) (b'0' + n % 10) s (omega arith)
      ∙ ap (λ k. number k s) (omega arith))
]

drop-append : (dir rest : Text) → drop (length dir) (dir ++ rest) ≡ rest
drop-append [] rest = refl
drop-append (c ∷ dir) rest = drop-append dir rest

abbrev separator : Text → Text
separator directory = if is_empty directory then [] else codes "/"

-- The identifier that a path names.
abbrev path_id : Text → Text → ℕ
path_id directory path = number 0 (drop (length (directory ++ separator directory)) path)

path_id_lem :
    (c : Connection) (path : Text)
    → make_out_file_path c ≡ some path
    → path_id c.out_file_directory path ≡ c.id
unfolding save_name to_string make_out_file_path
path_id_lem c path e = elim (Option-cases (file_ext (get_type c.media_prop))) [
  | inl n ↦ cc (rw (n, make_out_file_path) at e)
  | inr (ext, x) ↦
      let directory : Text = c.out_file_directory in
      let name : Text = to_string c.id ++ (codes "." ++ ext) in
      let made : directory ++ (separator directory ++ name) ≡ path =
        cc (rw (x, make_out_file_path) at e) in
      ap (path_id directory) (sym made ∙ sym (append_assoc directory (separator directory) name))
      ∙ ap (number 0) (drop-append (directory ++ separator directory) name)
      ∙ number-digits c.id c.id (codes "." ++ ext) (omega arith)
]

-- Connections that store in the same directory and have different identifiers never store in the
-- same file, whatever their media types.
pub make_out_file_path-ne :
    (c d : Connection) (path path' : Text)
    → c.out_file_directory ≡ d.out_file_directory
    → c.id ≢ d.id
    → make_out_file_path c ≡ some path
    → make_out_file_path d ≡ some path'
    → path ≢ path'
make_out_file_path-ne c d path path' same differ e f q = differ (
    sym (path_id_lem c path e)
    ∙ ap (path_id c.out_file_directory) q
    ∙ ap (λ directory. path_id directory path') same
    ∙ path_id_lem d path' f)
