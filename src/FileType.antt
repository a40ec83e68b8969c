-- ===== src/FileType.antt =====
-- src/include/core/model/file_type.h: the kind of a file, by the extension of its name.
use Prim.Native.Char.{code}
use lan_send.Base.{
  ℕ, ◌+◌, String, Bool, true, false, ◌&&◌, ◌||◌, ◌==◌, leb, List, [], ◌∷◌, if◌then◌else◌, ◌≡◌, refl,
  str_eq, is_empty,
}
use lan_send.Path.{extension}

pub data FileType : Type 0 where
  image video audio text pdf archive document presentation spreadsheet other : FileType

-- FileTypeToString, and the names of NLOHMANN_JSON_SERIALIZE_ENUM.
unfoldable pub file_type_to_string : FileType → String
file_type_to_string FileType.image = "Image"
file_type_to_string FileType.video = "Video"
file_type_to_string FileType.audio = "Audio"
file_type_to_string FileType.text = "Text"
file_type_to_string FileType.pdf = "PDF"
file_type_to_string FileType.archive = "Archive"
file_type_to_string FileType.document = "Document"
file_type_to_string FileType.presentation = "Presentation"
file_type_to_string FileType.spreadsheet = "Spreadsheet"
file_type_to_string FileType.other = "Other"

-- std::tolower of the bytes, as numbers.
unfoldable pub lower_codes : String → List ℕ
lower_codes String.[] = []
lower_codes (String.◌∷◌ c s) =
    (if leb b'A' (code c) && leb (code c) b'Z' then code c + 32 else code c) ∷ lower_codes s

abbrev codes : String → List ℕ
codes String.[] = []
codes (String.◌∷◌ c s) = code c ∷ codes s

same_codes : List ℕ → List ℕ → Bool
same_codes [] [] = true
same_codes (a ∷ xs) (b ∷ ys) = a == b && same_codes xs ys
same_codes _ _ = false

-- `ext == "a" || ext == "b" || …`
unfoldable pub is_one_of : List ℕ → List String → Bool
unfolding same_codes
is_one_of ext [] = false
is_one_of ext (name ∷ names) = same_codes ext (codes name) || is_one_of ext names

abbrev pub image_extensions : List String
image_extensions =
    "jpg" ∷ "jpeg" ∷ "png" ∷ "gif" ∷ "bmp" ∷ "tiff" ∷ "webp" ∷ "svg" ∷ "ico" ∷ "heic" ∷ "heif"
    ∷ "raw" ∷ []

abbrev pub video_extensions : List String
video_extensions =
    "mp4" ∷ "avi" ∷ "mkv" ∷ "mov" ∷ "wmv" ∷ "flv" ∷ "webm" ∷ "m4v" ∷ "mpg" ∷ "mpeg" ∷ "3gp" ∷ []

abbrev pub audio_extensions : List String
audio_extensions = "mp3" ∷ "wav" ∷ "ogg" ∷ "flac" ∷ "aac" ∷ "wma" ∷ "m4a" ∷ "opus" ∷ "mid" ∷ []

abbrev pub text_extensions : List String
text_extensions = "txt" ∷ "md" ∷ "csv" ∷ "json" ∷ "xml" ∷ "yaml" ∷ "yml" ∷ "ini" ∷ "log" ∷ []

abbrev pub archive_extensions : List String
archive_extensions = "zip" ∷ "rar" ∷ "7z" ∷ "tar" ∷ "gz" ∷ "bz2" ∷ "xz" ∷ "tgz" ∷ "iso" ∷ []

abbrev pub document_extensions : List String
document_extensions = "doc" ∷ "docx" ∷ "odt" ∷ "rtf" ∷ "tex" ∷ "epub" ∷ []

abbrev pub presentation_extensions : List String
presentation_extensions = "ppt" ∷ "pptx" ∷ "odp" ∷ "key" ∷ "pps" ∷ []

abbrev pub spreadsheet_extensions : List String
spreadsheet_extensions = "xls" ∷ "xlsx" ∷ "ods" ∷ "numbers" ∷ "xlsm" ∷ []

-- The extension without its dot, in lower case.
unfoldable pub classify : List ℕ → FileType
unfolding is_one_of
classify ext =
    if is_one_of ext image_extensions
    then FileType.image
    else if is_one_of ext video_extensions
    then FileType.video
    else if is_one_of ext audio_extensions
    then FileType.audio
    else if is_one_of ext text_extensions
    then FileType.text
    else if is_one_of ext ("pdf" ∷ [])
    then FileType.pdf
    else if is_one_of ext archive_extensions
    then FileType.archive
    else if is_one_of ext document_extensions
    then FileType.document
    else if is_one_of ext presentation_extensions
    then FileType.presentation
    else if is_one_of ext spreadsheet_extensions
    then FileType.spreadsheet
    else FileType.other

-- ext.substr(1)
abbrev without_dot : String → String
without_dot String.[] = ""
without_dot (String.◌∷◌ c s) = s

unfoldable pub get_file_type : String → FileType
unfolding classify lower_codes
get_file_type filepath =
    let ext = extension filepath in
    if is_empty ext || str_eq ext "."
    then FileType.other
    else classify (lower_codes (without_dot ext))

get_file_type_test :
    (get_file_type "/a/Photo.JPG" ≡ FileType.image)
    × (get_file_type "x.tar.Gz" ≡ FileType.archive)
    × (get_file_type "noext." ≡ FileType.other)
    × (get_file_type ".bashrc" ≡ FileType.other)
unfolding get_file_type extension
get_file_type_test = (refl, refl, refl, refl)
