-- ===== src/Mapper/Keys.antt =====
-- The keys of the mappings: "%s:%s" of mapper.go and "mapping:mid:%s:tid:%s" of redis_mapper.go.
use Prim.Native.Char.{Char, code}
use Prim.Native.String.{String, [], ◌∷◌, ◌++◌}
use text.Mathlib.TextLemmas.{
  nil-append, cons-append, append_assoc, append_cancel_left, head-eq_of_cons-eq, tail-eq_of_cons-eq,
}
use poselink_api_middleware.Common.{◌≡◌, ◌≢◌, refl, sym, ap, ◌∙◌}
use mathlib.Core.Path.{ap₂}

unfoldable pub config_key : String → String → String
config_key mid tid = mid ++ (":" ++ tid)

unfoldable pub mapping_key : String → String → String
mapping_key mid tid = "mapping:mid:" ++ (mid ++ (":tid:" ++ tid))

-- No colon stands in the text.
abbrev pub NoColon : String → Type 0
NoColon [] = Unit
NoColon (c ∷ s) = (code c ≢ b':') × NoColon s

abbrev colon : Char
colon = ":"

colon-append : (u : String) → ":" ++ u ≡ colon ∷ u
colon-append u = cons-append colon [] u ∙ ap (λ (t : String). colon ∷ t) (nil-append u)

-- A text that does not begin with a colon differs from one that does.
colon-ne : (d : Char) (t u v : String) → code d ≢ b':' → "" ++ (":" ++ u) ≢ (d ∷ t) ++ (":" ++ v)
colon-ne d t u v h e =
    let same : colon ∷ u ≡ d ∷ (t ++ (":" ++ v)) =
      sym (nil-append _ ∙ colon-append u) ∙ e ∙ cons-append d t _ in
    h (sym (ap code (head-eq_of_cons-eq same)))

-- Two texts without a colon that are followed by one end at the same place.
split_at_colon :
    (s t u v : String)
    → NoColon s
    → NoColon t
    → s ++ (":" ++ u) ≡ t ++ (":" ++ v)
    → (s ≡ t) × (u ≡ v)
split_at_colon [] [] u v h k e =
    (refl, append_cancel_left ":" u v (sym (nil-append _) ∙ e ∙ nil-append _))
split_at_colon [] (d ∷ t) u v h (q, k) e = absurd (colon-ne d t u v q e)
split_at_colon (c ∷ s) [] u v (p, h) k e = absurd (colon-ne c s v u p (sym e))
split_at_colon (c ∷ s) (d ∷ t) u v (p, h) (q, k) e =
    let same : c ∷ (s ++ (":" ++ u)) ≡ d ∷ (t ++ (":" ++ v)) =
      sym (cons-append c s _) ∙ e ∙ cons-append d t _ in
    let (tails, rests) = split_at_colon s t u v h k (tail-eq_of_cons-eq same) in
    (ap₂ (λ (x : Char) (y : String). x ∷ y) (head-eq_of_cons-eq same) tails, rests)

tid_part : (mid tid : String) → mid ++ (":tid:" ++ tid) ≡ mid ++ (":" ++ ("tid:" ++ tid))
tid_part mid tid = ap (λ (s : String). mid ++ s) (append_assoc ":" "tid:" tid)

-- Where the merchants' names hold no colon, two mappings share their Redis key only if they are of the same
-- merchant and terminal.
pub mapping_key_injective :
    (mid tid mid' tid' : String)
    → NoColon mid
    → NoColon mid'
    → mapping_key mid tid ≡ mapping_key mid' tid'
    → (mid ≡ mid') × (tid ≡ tid')
unfolding mapping_key
mapping_key_injective mid tid mid' tid' h k e =
    let (same, rest) =
      split_at_colon mid mid' ("tid:" ++ tid) ("tid:" ++ tid') h k
        (sym (tid_part mid tid) ∙ append_cancel_left "mapping:mid:" _ _ e ∙ tid_part mid' tid') in
    (same, append_cancel_left "tid:" tid tid' rest)

-- The same of the keys in the configuration.
pub config_key_injective :
    (mid tid mid' tid' : String)
    → NoColon mid
    → NoColon mid'
    → config_key mid tid ≡ config_key mid' tid'
    → (mid ≡ mid') × (tid ≡ tid')
unfolding config_key
config_key_injective mid tid mid' tid' h k e = split_at_colon mid mid' tid tid' h k e
