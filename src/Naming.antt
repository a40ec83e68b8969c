-- ===== src/Naming.antt =====
-- src/core/network/server/controller/receive_controller.cc, lines 419 to 442: the choice of the final
-- path in ReceiveController::onVerifyIntegrity. A file that exists is not overwritten: the stem gets
-- the suffix " (n)" with the first free n.
pub mod Fresh
pub mod Suffix
use Prim.Native.Char.{Char, code}
use Prim.Native.String
use lan_send.Base.{
  ℕ, zero, suc, ◌+◌, ◌^◌, ◌-◌, String, ◌<>◌, Option, none, some, Bool, true, false, ◌&&◌, ◌||◌,
  ◌==◌, str_eq, is_empty, leb, if◌then◌else◌, ◌≡◌, refl, to_string, scan, starts_with_digit, Assoc,
  lookup, length, List, [], ◌∷◌,
}
use lan_send.Message.{Bytes}
use lan_send.Path.{join, stem, extension}

-- The files on disk: path and content. A file is known by the text of its path: the paths are taken to
-- be in normal form, with no part `.` or `..`, which would name the same file in another way.
abbrev pub Disk : Type 0
Disk = Assoc Bytes

-- fs::exists, for a path in normal form
unfoldable pub exists : String → Disk → Bool
unfolding lookup
exists path disk = elim (lookup path disk) [ none ↦ false | some _ ↦ true ]

-- `\((\d+)\)$` at the front of the text: the number.
unfoldable pub closing_number : String → Option ℕ
unfolding scan
closing_number String.[] = none
closing_number (String.◌∷◌ c s) =
    if (code c == b'(') && starts_with_digit s
    then (let (n, rest) = scan s 0 in if str_eq rest ")" then some n else none)
    else none

-- `.` of a regular expression matches no line end.
abbrev pub is_line_end : Char → Bool
is_line_end c = (code c == 10) || (code c == 13)

-- std::regex_match(stem, R"((.*) \((\d+)\)$)"): the two groups, the second read as a number.
unfoldable pub match_numbered : String → Option (String × ℕ)
unfolding closing_number
match_numbered String.[] = none
match_numbered (String.◌∷◌ c s) = elim (match_numbered s) [
  | some (base, n) ↦ if is_line_end c then none else some (String.◌∷◌ c base, n)
  | none ↦
      if code c == b' '
      then elim (closing_number s) [ none ↦ none | some n ↦ some ("", n) ]
      else none
]

-- The largest `int`: std::stoi throws std::out_of_range above it.
abbrev pub int_max : ℕ
int_max = 2 ^ 31 - 1

-- The base of the new names and the first number to try; `none` where std::stoi throws, and where the
-- number is the largest int, so that adding 1 overflows and the behaviour is undefined.
unfoldable pub first_suffix : String → Option (String × ℕ)
unfolding match_numbered
first_suffix name = elim (match_numbered name) [
  | none ↦ some (name, 1)
  | some (base, n) ↦ if leb int_max n then none else some (base, n + 1)
]

-- save_dir_ / (stem + " (" + std::to_string(counter) + ")" + ext)
unfoldable pub candidate : String → String → String → ℕ → String
candidate dir base ext counter = join dir ((base <> (" (" <> (to_string counter <> ")"))) <> ext)

-- The do-while loop. The counter is an int, which is incremented after each new name and before the
-- test: at int_max this overflows, the behaviour is undefined, and the result is `none`, as it is where
-- the fuel runs out.
unfoldable pub next_free : ℕ → Disk → String → String → String → ℕ → Option String
next_free zero disk dir base ext counter = none
next_free (suc fuel) disk dir base ext counter =
    let rest = next_free fuel disk dir base ext (counter + 1) in
    if leb int_max counter
    then none
    else if exists (candidate dir base ext counter) disk
    then rest
    else some (candidate dir base ext counter)

-- The path that a received file is renamed to, `none` where std::stoi throws or the counter overflows.
-- A disk of n files leaves one of n + 1 names free, so this fuel is enough.
unfoldable pub final_path : Disk → String → String → Option String
unfolding first_suffix next_free candidate
final_path disk save_dir name =
    let path = join save_dir name in
    if exists path disk
    then elim (first_suffix (stem path)) [
      | none ↦ none
      | some (base, counter) ↦
          next_free (length disk + 1) disk save_dir base (extension path) counter
    ]
    else some path

final_path_test :
    (final_path (("/d/a (3).txt", []) ∷ ("/d/a (4).txt", []) ∷ []) "/d" "a (3).txt"
      ≡ some "/d/a (5).txt")
    × (final_path (("/d/a.txt", []) ∷ []) "/d" "a.txt" ≡ some "/d/a (1).txt")
    × (final_path (("/d/a (9999999999).txt", []) ∷ []) "/d" "a (9999999999).txt" ≡ none)
    × (final_path (("/d/a (2147483647).txt", []) ∷ []) "/d" "a (2147483647).txt" ≡ none)
unfolding final_path exists to_string join stem extension
final_path_test = (refl, refl, refl, refl)
