-- ===== src/Publishing/Text.antt =====
-- packages/types/src/canonical.ts: canonicalOutboundText and validateThreadText, over UTF-16 code
-- units.
use thread_pilot.Common.{
  ℕ, Bool, true, false, ◌&&◌, ◌||◌, List, [], ◌∷◌, leb, ltb, ◌==◌, if◌then◌else◌, length,
}
use mathlib.Core.List.{reverse}

-- The white space and line terminators that `String.prototype.trim` removes.
unfoldable pub is_space : ℕ → Bool
is_space c =
    (leb 9 c && leb c 13)
    || c == 32
    || c == 160
    || c == 0x1680
    || (leb 0x2000 c && leb c 0x200A)
    || c == 0x2028
    || c == 0x2029
    || c == 0x202F
    || c == 0x205F
    || c == 0x3000
    || c == 0xFEFF

unfoldable pub trim_start : List ℕ → List ℕ
trim_start [] = []
trim_start (c ∷ cs) = elim (is_space c) [ true ↦ trim_start cs | false ↦ c ∷ cs ]

unfoldable pub trim : List ℕ → List ℕ
unfolding trim_start
trim cs = reverse (trim_start (reverse (trim_start cs)))

unfoldable pub canonical_outbound_text : List ℕ → List ℕ
canonical_outbound_text [] = []
canonical_outbound_text (c ∷ cs) = trim (c ∷ cs)

-- The messages of the two rejections.
pub data TextError : Type 0 where
  empty : TextError
  too_long : ℕ → TextError

pub data TextVerdict : Type 0 where
  valid : (length : ℕ) → TextVerdict
  invalid : (length : ℕ) → TextError → TextVerdict

unfoldable pub validate_thread_text : List ℕ → TextVerdict
validate_thread_text text =
    if length (trim text) == 0
    then invalid 0 empty
    else if ltb 500 (length text)
    then invalid (length text) (too_long (length text))
    else valid (length text)
