-- ===== src/Base/Text.antt =====
-- Texts: their equality test, and Python's `sep.join` at the empty separator.
use Prim.Native.String.{String, ◌++◌}
use mathlib.Core.List.{List, [], ◌∷◌}
pub use Prim.Native.String.{String}
pub use text.Mathlib.Text.{◌==◌ as str_eq}
pub use text.Mathlib.TextEquality.{eq_iff}

abbrev pub concat : List String → String
concat [] = ""
concat (s ∷ ss) = s ++ concat ss
