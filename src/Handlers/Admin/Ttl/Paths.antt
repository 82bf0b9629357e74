-- ===== src/Handlers/Admin/Ttl/Paths.antt =====
-- The paths of the two routes, and the transaction that they name.
use Prim.Native.Char.{Char, code}
use Prim.Native.String.{String, [], ◌∷◌, ◌++◌}
use mathlib.Core.List.{List}
use text.Mathlib.TextLemmas.{nil-append, cons-append}
use poselink_api_middleware.Common.{◌≡◌, refl, arith, ap, ◌∙◌, some, false, ◌==◌}
use poselink_api_middleware.Common.Lists.{get_elem?}
use poselink_api_middleware.Common.Decimal.{push, split}
use poselink_api_middleware.Handlers.Admin.Ttl.{path_trx_id}

-- A text without slashes.
abbrev pub IsSegment : String → Type 0
IsSegment [] = Unit {0}
IsSegment (c ∷ s) = (code c == b'/' ≡ false) × IsSegment s

abbrev pub AreSegments : List String → Type 0
AreSegments List.[] = Unit {0}
AreSegments (List.◌∷◌ s ss) = IsSegment s × AreSegments ss

-- A slash before each segment.
abbrev pub path_of : List String → String
path_of List.[] = []
path_of (List.◌∷◌ s ss) = "/" ++ (s ++ path_of ss)

abbrev slash : Char
slash = "/"

split-cons :
    (c : Char) (s : String) → code c == b'/' ≡ false → split b'/' (c ∷ s) ≡ push c (split b'/' s)
unfolding split
split-cons c s plain = rw plain refl

split-slash : (s : String) → split b'/' ("/" ++ s) ≡ List.◌∷◌ "" (split b'/' s)
unfolding split
split-slash s =
    ap (split b'/') (cons-append slash [] s ∙ ap (λ (t : String). slash ∷ t) (nil-append s))

split-segment :
    (s : String) (ss : List String)
    → IsSegment s
    → AreSegments ss
    → split b'/' (s ++ path_of ss) ≡ List.◌∷◌ s ss
unfolding split
split-segment [] List.[] h g = ap (split b'/') (nil-append [])
split-segment [] (List.◌∷◌ t ss) h (g, gs) =
    ap (split b'/') (nil-append (path_of (List.◌∷◌ t ss)))
    ∙ split-slash (t ++ path_of ss)
    ∙ ap (λ (ts : List String). List.◌∷◌ "" ts) (split-segment t ss g gs)
split-segment (c ∷ s) ss (plain, h) g =
    ap (split b'/') (cons-append c s (path_of ss))
    ∙ split-cons c (s ++ path_of ss) plain
    ∙ ap (push c) (split-segment s ss h g)

-- On a path of the route `/api/v1/admin/transaction/{trx_id}/ttl` or its twin, the handlers find the variable.
pub path_trx_id_lem :
    (trx_id action : String)
    → IsSegment trx_id
    → IsSegment action
    → path_trx_id (
        path_of (
          List.◌∷◌ "api" (
            List.◌∷◌ "v1" (
              List.◌∷◌ "admin"
                (List.◌∷◌ "transaction" (List.◌∷◌ trx_id (List.◌∷◌ action List.[])))))))
      ≡ some trx_id
unfolding path_trx_id
path_trx_id_lem trx_id action h g =
    let known : IsSegment "api" × IsSegment "v1" × IsSegment "admin" × IsSegment "transaction" =
      ground arith in
    let rest : List String =
      List.◌∷◌ "v1"
        (List.◌∷◌ "admin" (List.◌∷◌ "transaction" (List.◌∷◌ trx_id (List.◌∷◌ action List.[])))) in
    let parts =
      split-slash ("api" ++ path_of rest)
      ∙ ap (λ (ts : List String). List.◌∷◌ "" ts)
          (split-segment "api" rest known.0 (known.1, (known.2, (known.3, (h, (g, tt)))))) in
    ap (λ (ts : List String). get_elem? ts 5) parts
