-- ===== src/Base/Texts.antt =====
-- Python's `str`, as a list of code points, with the parts of `str.strip` that the source uses.
use Prim.Native.Nat.{ℕ}
use Prim.Native.Char.{code}
use Prim.Native.String.{String}
use mathlib.Core.Bool.{Bool, ◌&&◌, ◌||◌, not}
use mathlib.Core.List.{List, [], ◌∷◌, reverse}
use native.Mathlib.Decide.{ℕ_discrete}
use governed_llm_gateway.Base.Tests.{leb, ◌==◌, if◌then◌else◌, same}

abbrev pub Text : Type 0
Text = List ℕ

unfoldable pub Text-discrete : Discrete Text
Text-discrete = hlevel ℕ_discrete

abbrev pub text_eq : Text → Text → Bool
text_eq = same Text-discrete

abbrev pub codes : String → Text
codes String.[] = []
codes (String.◌∷◌ c s) = code c ∷ codes s

-- The code points that `str.strip()` removes (`str.isspace`).
pub is_space : ℕ → Bool
is_space c =
    (leb 9 c && leb c 13)
    || (leb 28 c && leb c 32)
    || c == 0x85
    || c == 0xA0
    || c == 0x1680
    || (leb 0x2000 c && leb c 0x200A)
    || c == 0x2028
    || c == 0x2029
    || c == 0x202F
    || c == 0x205F
    || c == 0x3000

pub lstrip : Text → Text
lstrip [] = []
lstrip (c ∷ cs) = if is_space c then lstrip cs else c ∷ cs

unfoldable pub strip : Text → Text
unfolding lstrip is_space
strip t = reverse (lstrip (reverse (lstrip t)))

-- `value and value.strip() == value`: a non-empty normalized string.
unfoldable pub is_normalized : Text → Bool
unfolding strip Text-discrete ℕ_discrete
is_normalized t = not (text_eq t []) && text_eq (strip t) t
