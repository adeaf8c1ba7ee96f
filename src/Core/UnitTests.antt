-- ===== src/Core/UnitTests.antt =====
-- test/core: the unit tests of the repository for the strings, the paths, the casts and the guards,
-- run on the model. Each is the conjunction of what its test expects.
use hyperion_server.Common.{
  ℕ, suc, zero, ◌≡◌, refl, Option, none, some, Bool, true, false, ◌&&◌, [], ◌∷◌, ◌++◌, ◌==◌,
}
use hyperion_server.Common.Text.{Text, codes, same_text, is_empty}
use hyperion_server.Common.Int.{ℤ, pos, same_int}
use hyperion_server.Common.Exec.{Outcome, returned, modify, pure, guarded}
use hyperion_server.Core.Utility.{
  str_to_lower, str_to_upper, str_trim, str_trim_whitespace, str_match_len, take,
}
use hyperion_server.Core.Filesystem.{set_executing_directory, resolve_path, read_file}
use hyperion_server.Core.GuardedData.{
  System, guarded_access, write_value, get_unsafe, set_unsafe, new_system,
}
use hyperion_server.Core.Convert.{IntType, safe_cast, safe_cast_assign, lossy_cast, is_lost}
use hyperion_server.Media.Save.{contents}

abbrev str_to_lower_test : Bool
str_to_lower_test =
    same_text (str_to_lower (codes "ASDADxcxvcASDJAKDJ:AL")) (codes "asdadxcxvcasdjakdj:al")

abbrev str_to_upper_test : Bool
str_to_upper_test =
    same_text (str_to_upper (codes "ASDADxcxvcASDJAKDJ:AL")) (codes "ASDADXCXVCASDJAKDJ:AL")

abbrev str_trim_test : Bool
str_trim_test =
    same_text (str_trim (codes "aaaabcdefgbbbb") (codes "ab")) (codes "cdefg")
    && same_text (str_trim (codes "11112222fff22221113") (codes "12")) (codes "fff22221113")

-- `str.resize(size)` of a shorter string.
abbrev nuls : ℕ → Text
nuls zero = []
nuls (suc n) = 0 ∷ nuls n

abbrev resized : Text
resized = codes "     abcdefg    " ++ nuls 84

-- A text is found at 0 where the string starts with it.
abbrev str_trim_whitespace_test : Bool
str_trim_whitespace_test =
    same_text (str_trim_whitespace resized) (codes "abcdefg")
    && same_text (take 7 (str_trim_whitespace resized)) (codes "abcdefg")
    && same_text (str_trim_whitespace (codes "asdf                      ")) (codes "asdf")
    && is_empty (str_trim_whitespace (codes "            "))
    && is_empty (str_trim_whitespace [])

abbrev str_match_len_test : Bool
str_match_len_test =
    same_text (str_match_len (codes "abc") 10 b' ') (codes "abc       ")
    && same_text (str_match_len (codes "abc") 0 b' ') (codes "abc")
    && same_text (str_match_len [] 5 b'-') (codes "-----")

utility_passes :
    (str_to_lower_test && str_to_upper_test && str_trim_test && str_trim_whitespace_test
      && str_match_len_test)
    ≡ true
unfolding str_to_lower str_to_upper str_trim str_trim_whitespace str_match_len same_text
utility_passes = refl

abbrev resolved : Text → Text → Text
resolved argv0 path = resolve_path (set_executing_directory false argv0) path

-- The first path is only there on Windows.
abbrev working_directory_get_set_test : Bool
working_directory_get_set_test =
    same_text (set_executing_directory true (codes "C:\\x\\y\\z\\b.exe")) (codes "C:/x/y/z")
    && same_text (set_executing_directory false (codes "abcdefghijkl;'")) []
    && same_text (set_executing_directory false (codes "x/y/z/b.exe")) (codes "x/y/z")
    && same_text (set_executing_directory false (codes "x/123456.exe")) (codes "x")

abbrev resolve_path_test : Bool
resolve_path_test =
    let app = codes "antarctica/coolApplication.exe" in
    same_text (resolved app []) (codes "antarctica/")
    && same_text (resolved app (codes "glaciers/glacier1.png"))
        (codes "antarctica/glaciers/glacier1.png")
    && same_text (resolved app (codes "banana/banana1.png")) (codes "antarctica/banana/banana1.png")

-- On a disk without such files.
abbrev read_file_test : Bool
read_file_test =
    is_empty (read_file [] [])
    && is_empty (read_file [] (codes "someMysteriousFilePathThatDOESnotEXIST"))

filesystem_passes : (working_directory_get_set_test && resolve_path_test && read_file_test) ≡ true
unfolding set_executing_directory resolve_path read_file same_text contents
filesystem_passes = refl

abbrev int_type : IntType
int_type = record { is_signed = true; bits = 31 }

abbrev uint64_type : IntType
uint64_type = record { is_signed = false; bits = 63 }

abbrev casts_to : ℤ → Outcome ℤ → Bool
casts_to n (returned m) = same_int m n
casts_to n _ = false

abbrev safe_cast_test : Bool
safe_cast_test =
    casts_to (pos 42) (safe_cast int_type int_type (pos 42))
    && casts_to (pos 1) (safe_cast int_type uint64_type (pos 1))

abbrev safe_cast_assign_test : Bool
safe_cast_assign_test = casts_to (pos 1) (safe_cast_assign int_type uint64_type (pos 42) (pos 1))

convert_passes : (safe_cast_test && safe_cast_assign_test) ≡ true
unfolding safe_cast safe_cast_assign lossy_cast is_lost
convert_passes = refl

-- `called`, after the scope of a guard that sets it.
abbrev call_destructor_test : Bool
call_destructor_test = (guarded {A = Unit {0}} (modify (λ called. true)) (pure tt) false).1

guard_passes : call_destructor_test ≡ true
unfolding guarded
guard_passes = refl

-- A `GuardedData` of two numbers, locked, written to through the access, and past it.
abbrev locked : Option (System (ℕ × ℕ))
locked = guarded_access (λ i. 0) 0 (new_system (0, 0))

abbrev writes_seen : Option (System (ℕ × ℕ)) → Bool
writes_seen none = false
writes_seen (some s) =
    let t = write_value 0 (12, s.value.1) s in
    let u = write_value 0 (20, t.value.1) t in
    let v = set_unsafe (9, u.value.1) u in
    ((get_unsafe t).0 == 12) && (u.value.0 == 20) && ((get_unsafe v).0 == 9)

abbrev guarded_access_test : Bool
guarded_access_test = writes_seen locked

abbrev is_new : Option (System (ℕ × ℕ)) → Bool
is_new none = false
is_new (some s) = s.value.0 == 0

abbrev const_guarded_access_test : Bool
const_guarded_access_test = is_new locked

abbrev get_test : Bool
get_test = get_unsafe (set_unsafe 54 (new_system 0)) == 54

abbrev const_get_test : Bool
const_get_test = get_unsafe (new_system 0) == 0

guarded_data_passes :
    (guarded_access_test && const_guarded_access_test && get_test && const_get_test) ≡ true
unfolding guarded_access new_system write_value get_unsafe set_unsafe
guarded_data_passes = refl
