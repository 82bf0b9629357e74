-- ===== src/Handlers/Admin/Migration/Entries.antt =====
-- What an entry of the configuration leaves in Redis.
use Prim.Native.Char.{Char, code}
use Prim.Native.String.{String}
use poselink_api_middleware.Common.{
  ℕ, ◌+◌, ◌≤◌, ◌≡◌, ◌≢◌, ◌∙◌, refl, sym, ap, Option, none, some, Bool, true, false, List, [], ◌∷◌,
  ok, err, Done, arith, str_eq, eq_iff, ◌==◌, inl, inr, Bool-cases, Option-cases, if◌then◌else◌,
}
use poselink_api_middleware.Redis.{Redis, IsLawful, nil_reply}
use poselink_api_middleware.Mapper.Keys.{mapping_key, NoColon}
use poselink_api_middleware.Mapper.RedisMapper.{get_serial_number, set_mapping}
use poselink_api_middleware.Common.Decimal.{push, split}
use poselink_api_middleware.Handlers.Admin.Migration.{
  Migration, migrate_entry, migrate_parts, unless_there, write, stored, read,
}

abbrev FirstIsPlain : List String → Type 0
FirstIsPlain [] = Unit {0}
FirstIsPlain (s ∷ ss) = NoColon s

push-FirstIsPlain :
    (c : Char) (parts : List String)
    → code c ≢ b':'
    → FirstIsPlain parts
    → FirstIsPlain (push c parts)
push-FirstIsPlain c [] plain h = tt
push-FirstIsPlain c (s ∷ ss) plain h = (plain, h)

split-FirstIsPlain : (s : String) → FirstIsPlain (split b':' s)
unfolding split
split-FirstIsPlain String.[] = tt
split-FirstIsPlain (String.◌∷◌ c s) = elim (Bool-cases (code c == b':')) [
  | inl e ↦ rw e tt
  | inr e ↦ rw e (push-FirstIsPlain c (split b':' s) (ground (arith, e)) (split-FirstIsPlain s))
]

-- The merchant of an entry holds no colon.
pub split-NoColon : (s mid tid : String) → split b':' s ≡ mid ∷ (tid ∷ []) → NoColon mid
split-NoColon s mid tid e = rw e at (split-FirstIsPlain s)

grown : (n : ℕ) → n + 1 ≢ n
grown n = omega arith

-- The serial number that a mapping has after an entry for it, by what it had before.
abbrev pub migrated : Bool → Option String → String → String
migrated true held serial = serial
migrated false none serial = serial
migrated false (some old) serial = old

module _ {W : Type 0} {R : Redis W} (L : IsLawful R) (before_get before_set : String → W → W) where
  parts_grow :
      (force : Bool) (parts : List String) (key serial : String) (m : Migration W)
      → m.error_count ≤ (migrate_parts R before_get before_set force parts key serial m).error_count
  unfolding migrate_parts unless_there write stored read
  parts_grow force (mid ∷ (tid ∷ [])) key serial m = ground arith
  parts_grow force [] key serial m = omega arith
  parts_grow force (mid ∷ []) key serial m = omega arith
  parts_grow force (mid ∷ (tid ∷ (x ∷ xs))) key serial m = omega arith

  pub entry_grows :
      (force : Bool) (key serial : String) (m : Migration W)
      → m.error_count ≤ (migrate_entry R before_get before_set force key serial m).error_count
  unfolding migrate_entry
  entry_grows force key serial m = parts_grow force _ key serial m

  -- An entry whose write is not counted as an error was written.
  stored_lem :
      (force : Bool) (mid tid : String) (m : Migration W) (r : W × Done)
      → (stored R before_get before_set force mid tid m r).error_count ≡ m.error_count
      → (r.1 ≡ ok tt) × ((stored R before_get before_set force mid tid m r).world ≡ r.0)
  unfolding stored
  stored_lem force mid tid m (w, ok done) h = (refl, refl)
  stored_lem force mid tid m (w, err e) h = elim (grown _ h) [ ]

  pub set-content :
      (w : W) (mid tid serial : String)
      → (set_mapping R w mid tid serial).1 ≡ ok tt
      → (k : String)
      → L.content (set_mapping R w mid tid serial).0 k
        ≡ (if str_eq k (mapping_key mid tid) then some serial else L.content w k)
  unfolding set_mapping
  set-content w mid tid serial done k =
      let key = mapping_key mid tid in
      let written : (R.set w key serial 0).1 ≡ none = ground arith in
      ground (arith, L.set-content w key serial 0 k written)

  module _
      (get_alone : (key : String) (w : W) (k : String)
        → L.content (before_get key w) k ≡ L.content w k)
      (set_alone : (key : String) (w : W) (k : String)
        → L.content (before_set key w) k ≡ L.content w k) where
    write-content :
        (force : Bool) (mid tid key serial : String) (m : Migration W)
        → (write R before_get before_set force mid tid key serial m).error_count ≡ m.error_count
        → (k : String)
        → L.content (write R before_get before_set force mid tid key serial m).world k
          ≡ (if str_eq k (mapping_key mid tid) then some serial else L.content m.world k)
    unfolding write
    write-content force mid tid key serial m none_failed k =
        let w = before_set key m.world in
        let r = set_mapping R w mid tid serial in
        let (done, world) = stored_lem force mid tid m r none_failed in
        ap (λ v. L.content v k) world
        ∙ set-content w mid tid serial done k
        ∙ rw (set_alone key m.world k) refl

    -- What is under the key of the entry, and what is elsewhere.
    abbrev Leaves : Bool → String → String → String → W → W → Type 0
    Leaves force mid tid serial w w' =
        (k : String)
        → L.content w' k ≡ (
            if str_eq k (mapping_key mid tid)
            then some (migrated force (L.content w (mapping_key mid tid)) serial)
            else L.content w k)

    unforced-content :
        (mid tid key serial : String) (m : Migration W)
        → L.down (before_get key m.world) ≡ none
        → (migrate_parts R before_get before_set false (mid ∷ (tid ∷ [])) key serial m).error_count
          ≡ m.error_count
        → Leaves false mid tid serial m.world
            (migrate_parts R before_get before_set false (mid ∷ (tid ∷ [])) key serial m).world
    unfolding migrate_parts unless_there read get_serial_number
    unforced-content mid tid key serial m up none_failed k =
        let w = before_get key m.world in
        let here = mapping_key mid tid in
        let same = get_alone key m.world here in
        elim (Option-cases (L.content w here)) [
          | inl gone ↦
              let missing : R.get w here ≡ err nil_reply =
                ground (arith, L.get-reply w here, up, gone) in
              let m' = read R before_get before_set false key m in
              let final : migrate_parts R before_get before_set false (mid ∷ (tid ∷ [])) key serial
                    m
                  ≡ write R before_get before_set false mid tid key serial m' =
                rw (missing, migrate_parts, get_serial_number) refl in
              let kept : L.content m.world here ≡ none = sym same ∙ gone in
              ap (λ (n : Migration W). L.content n.world k) final
              ∙ write-content false mid tid key serial m' (rw final at none_failed) k
              ∙ rw (kept, get_alone key m.world k) refl
          | inr (old, there) ↦
              let found : R.get w here ≡ ok old = ground (arith, L.get-reply w here, up, there) in
              let kept : L.content m.world here ≡ some old = sym same ∙ there in
              rw (found, migrate_parts, get_serial_number, kept)
                (ground (arith, get_alone key m.world k, eq_iff k here, kept))
        ]

    parts-content :
        (force : Bool) (parts : List String) (key serial : String) (m : Migration W)
        → (force ≡ false → L.down (before_get key m.world) ≡ none)
        → (migrate_parts R before_get before_set force parts key serial m).error_count
          ≡ m.error_count
        → (mid tid : String) × (parts ≡ mid ∷ (tid ∷ []))
          × Leaves force mid tid serial m.world
              (migrate_parts R before_get before_set force parts key serial m).world
    unfolding migrate_parts
    parts-content true (mid ∷ (tid ∷ [])) key serial m up none_failed =
        (mid, tid, refl, write-content true mid tid key serial m none_failed)
    parts-content false (mid ∷ (tid ∷ [])) key serial m up none_failed =
        (mid, tid, refl, unforced-content mid tid key serial m (up refl) none_failed)
    parts-content force [] key serial m up none_failed = elim (grown _ none_failed) [ ]
    parts-content force (mid ∷ []) key serial m up none_failed = elim (grown _ none_failed) [ ]
    parts-content force (mid ∷ (tid ∷ (x ∷ xs))) key serial m up none_failed =
        elim (grown _ none_failed) [ ]

    -- An entry without an error is a merchant and a terminal, and changes at most their mapping.
    pub entry-content :
        (force : Bool) (key serial : String) (m : Migration W)
        → (force ≡ false → L.down (before_get key m.world) ≡ none)
        → (migrate_entry R before_get before_set force key serial m).error_count ≡ m.error_count
        → (mid tid : String) × (split b':' key ≡ mid ∷ (tid ∷ []))
          × Leaves force mid tid serial m.world
              (migrate_entry R before_get before_set force key serial m).world
    unfolding migrate_entry
    entry-content force key serial m up none_failed =
        parts-content force (split b':' key) key serial m up none_failed
