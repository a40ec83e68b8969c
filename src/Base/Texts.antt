-- ===== src/Base/Texts.antt =====
-- std::string as the native text: equality, append, the empty test.
use Prim.Native.String.{String}
use mathlib.Core.Bool.{Bool, true, false}
pub use text.Mathlib.Text.{◌==◌ as str_eq}
pub use text.Mathlib.TextEquality.{eq_iff}
pub use text.Mathlib.TextPositions.{eq_refl}
pub use Prim.Native.String.{◌++◌ as ◌<>◌}

-- std::string::empty
abbrev pub is_empty : String → Bool
is_empty String.[] = true
is_empty (String.◌∷◌ c s) = false
