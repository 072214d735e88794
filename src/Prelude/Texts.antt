-- ===== src/Prelude/Texts.antt =====
-- Go's formatted texts. A text is the list of its pieces: `lit` is the format string's own text,
-- `shown` an argument of %s, `quoted` of %q, `decimal` of %d. The code tests a text only for
-- emptiness, and strings that it compares stay `String`.
use Prim.Native.Nat.{ℕ}
use Prim.Native.String.{String}
use mathlib.Core.Bool.{Bool, true, false, ◌&&◌}
use mathlib.Core.List.{List, [], ◌∷◌}
use text.Mathlib.Text.{◌==◌ as ◌is◌}

pub data Piece : Type 0 where
  lit shown quoted : String → Piece
  decimal : ℕ → Piece

abbrev pub Text : Type 0
Text = List Piece

abbrev pub is_blank_piece : Piece → Bool
is_blank_piece (lit s) = s is ""
is_blank_piece (shown s) = s is ""
is_blank_piece (quoted s) = false
is_blank_piece (decimal n) = false

-- `text == ""`
abbrev pub is_blank : Text → Bool
is_blank [] = true
is_blank (p ∷ t) = is_blank_piece p && is_blank t
