-- ===== src/Path.antt =====
-- std::filesystem::path on POSIX, as the program uses it: `operator/`, filename, stem, extension.
-- A path is its text.
use Prim.Native.Char.{Char, code}
use lan_send.Base.{
  String, ◌<>◌, Option, none, some, Bool, false, ◌||◌, ◌==◌, str_eq, is_empty, if◌then◌else◌, ◌≡◌,
  refl,
}

abbrev pub is_slash : Char → Bool
is_slash c = code c == b'/'

-- path::is_absolute
abbrev pub is_absolute : String → Bool
is_absolute String.[] = false
is_absolute (String.◌∷◌ c s) = is_slash c

ends_with_slash : String → Bool
ends_with_slash String.[] = false
ends_with_slash (String.◌∷◌ c s) = if is_empty s then is_slash c else ends_with_slash s

-- dir / name
unfoldable pub join : String → String → String
unfolding ends_with_slash
join dir name =
    if is_absolute name
    then name
    else if is_empty dir || ends_with_slash dir
    then dir <> name
    else dir <> ("/" <> name)

contains_slash : String → Bool
contains_slash String.[] = false
contains_slash (String.◌∷◌ c s) = is_slash c || contains_slash s

-- What follows the last slash.
unfoldable pub filename : String → String
unfolding contains_slash
filename String.[] = ""
filename (String.◌∷◌ c s) =
    if contains_slash s then filename s else if is_slash c then s else String.◌∷◌ c s

-- The text before the last dot, and the text from it on.
split_dot : String → Option (String × String)
split_dot String.[] = none
split_dot (String.◌∷◌ c s) = elim (split_dot s) [
  | some (b, e) ↦ some (String.◌∷◌ c b, e)
  | none ↦ if code c == b'.' then some ("", String.◌∷◌ c s) else none
]

-- A leading dot starts no extension, and "." and ".." have none.
split_name : String → String × String
unfolding split_dot
split_name name =
    if str_eq name "." || str_eq name ".." then (name, "") else elim (split_dot name) [
      | none ↦ (name, "")
      | some (b, e) ↦ if is_empty b then (name, "") else (b, e)
    ]

unfoldable pub stem : String → String
unfolding split_name filename
stem path = (split_name (filename path)).0

unfoldable pub extension : String → String
unfolding split_name filename
extension path = (split_name (filename path)).1

path_test :
    (stem "/home/u/a.tar.gz" ≡ "a.tar")
    × (extension "/home/u/a.tar.gz" ≡ ".gz")
    × (extension "/x.d/.bashrc" ≡ "")
    × (join "/home/u" "a" ≡ "/home/u/a")
    × (join "/home/u" "/etc/a" ≡ "/etc/a")
unfolding stem extension join
path_test = (refl, refl, refl, refl, refl)
