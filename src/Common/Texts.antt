-- ===== src/Common/Texts.antt =====
-- Texts: what their equality test says, and `strings.TrimSpace`.
use Prim.Native.Char.{Char, code}
use Prim.Native.String.{String, [], ◌∷◌}
use mathlib.Core.Path.{◌≡◌}
use mathlib.Core.Logic.{◌≢◌}
use mathlib.Core.Bool.{Bool, false, ◌&&◌, ◌||◌}
use native.Mathlib.Omega.{arith}
use text.Mathlib.Text.{◌==◌ as str_eq}
use poselink_api_middleware.Common.Tests.{leb, ◌==◌, if◌then◌else◌}
use text.Mathlib.TextEquality.{eq_iff}

-- A test that is false separates its texts.
pub ne_of_eq-false : (s t : String) → str_eq s t ≡ false → s ≢ t
ne_of_eq-false s t h e = ground (arith, eq_iff s t)

pub eq-false_of_ne : (s t : String) → s ≢ t → str_eq s t ≡ false
eq-false_of_ne s t h = ground (arith, eq_iff s t)

-- `unicode.IsSpace`
unfoldable pub is_space : Char → Bool
is_space c =
    (leb 9 (code c) && leb (code c) 13)
    || (code c == 0x20
        || (code c == 0x85
            || (code c == 0xa0
                || (code c == 0x1680
                    || ((leb 0x2000 (code c) && leb (code c) 0x200a)
                        || (code c == 0x2028
                            || (code c == 0x2029
                                || (code c == 0x202f
                                    || (code c == 0x205f || code c == 0x3000)))))))))

unfoldable pub trim_left : String → String
trim_left [] = []
trim_left (c ∷ s) = if is_space c then trim_left s else c ∷ s

-- A space goes if nothing is left after it.
unfoldable pub trim_right : String → String
trim_right [] = []
trim_right (c ∷ s) =
    let rest = trim_right s in if is_space c && str_eq rest "" then [] else c ∷ rest

-- `strings.TrimSpace`
unfoldable pub trim_space : String → String
unfolding trim_left trim_right is_space
trim_space s = trim_right (trim_left s)
