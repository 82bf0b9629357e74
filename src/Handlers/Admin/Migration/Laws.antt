-- ===== src/Handlers/Admin/Migration/Laws.antt =====
-- What a migration counts, and what it leaves in Redis.
use poselink_api_middleware.Common.{
  ℕ, suc, ◌+◌, ◌≤◌, ◌≡◌, ◌∙◌, refl, subst, String, Bool, true, false, List, [], ◌∷◌, ◌++◌, Result,
  ok, err, arith,
}
use poselink_api_middleware.Common.Lists.{length}
use poselink_api_middleware.Redis.{Redis}
use poselink_api_middleware.Handlers.Admin.Migration.{
  Migration, add_error, migrate_entry, migrate_entries, migrate_parts, unless_there, write, stored,
  read, start,
}

length-snoc : {A : Type 0} → (xs : List A) (x : A) → length (xs ++ (x ∷ [])) ≡ length xs + 1
length-snoc [] x = refl
length-snoc (y ∷ xs) x = let ih = length-snoc xs x in ground arith

-- Every error is counted, and no more entries are counted than were visited; all are when `force` is set.
record Counts {W : Type 0} (force : Bool) (visited : ℕ) (m : Migration W) : Type 0 where
  pub listed : length m.errors ≡ m.error_count
  pub bounded : m.success_count + m.error_count ≤ visited
  pub all_forced : force ≡ true → m.success_count + m.error_count ≡ visited

at_count :
    {W : Type 0} {force : Bool} {n k : ℕ} {m : Migration W}
    → n ≡ k
    → Counts force n m
    → Counts force k m
at_count {force = force} {m = m} same c = subst (λ k. Counts force k m) same c

at_read :
    {W : Type 0} {n : ℕ} {m : Migration W} {w : W}
    → Counts false n m
    → Counts false n (record m { world = w })
at_read c = record { listed = c.listed; bounded = c.bounded; all_forced = c.all_forced }

module _ {W : Type 0} (mapper : Redis W) (before_get before_set : String → W → W) where
  add_error-Counts :
      (force : Bool) (n : ℕ) (message : String) (m : Migration W)
      → Counts force n m
      → Counts force (suc n) (add_error message m)
  add_error-Counts force n message m c = record {
    listed = let b = c.listed in length-snoc _ _ ∙ ground arith;
    bounded = let b = c.bounded in omega arith;
    all_forced = λ f. let b = c.all_forced f in omega arith;
  }

  stored-Counts :
      (force : Bool) (n : ℕ) (mid tid : String) (m : Migration W) (r : W × Result String Unit)
      → Counts force n m
      → Counts force (suc n) (stored mapper before_get before_set force mid tid m r)
  unfolding stored
  stored-Counts force n mid tid m (w, ok done) c = record {
    listed = c.listed;
    bounded = let b = c.bounded in omega arith;
    all_forced = λ f. let b = c.all_forced f in omega arith;
  }
  stored-Counts force n mid tid m (w, err e) c =
      add_error-Counts force n _ (record m { world = w })
        (record { listed = c.listed; bounded = c.bounded; all_forced = c.all_forced })

  unless_there-Counts :
      (n : ℕ) (r : Result String String) (m m' : Migration W)
      → Counts false n m
      → Counts false (suc n) m'
      → Counts false (suc n) (unless_there mapper before_get before_set false r m m')
  unfolding unless_there
  unless_there-Counts n (ok serial) m m' c c' = record {
    listed = c.listed;
    bounded = let b = c.bounded in omega arith;
    all_forced = λ f. ground arith;
  }
  unless_there-Counts n (err e) m m' c c' = c'

  parts-Counts :
      (force : Bool) (n : ℕ) (parts : List String) (key serial : String) (m : Migration W)
      → Counts force n m
      → Counts force (suc n) (migrate_parts mapper before_get before_set force parts key serial m)
  unfolding migrate_parts write read
  parts-Counts true n (mid ∷ (tid ∷ [])) key serial m c = stored-Counts true n mid tid m _ c
  parts-Counts false n (mid ∷ (tid ∷ [])) key serial m c =
      unless_there-Counts n _ (read mapper before_get before_set false key m) _ (at_read c)
        (stored-Counts false n mid tid _ _ (at_read c))
  parts-Counts force n [] key serial m c = add_error-Counts force n _ m c
  parts-Counts force n (mid ∷ []) key serial m c = add_error-Counts force n _ m c
  parts-Counts force n (mid ∷ (tid ∷ (x ∷ xs))) key serial m c = add_error-Counts force n _ m c

  entries-Counts :
      (force : Bool) (n : ℕ) (mappings : List (String × String)) (m : Migration W)
      → Counts force n m
      → Counts force
          (length mappings + n)
          (migrate_entries mapper before_get before_set force mappings m)
  unfolding migrate_entries migrate_entry
  entries-Counts force n [] m c = at_count (omega arith) c
  entries-Counts force n ((key, serial) ∷ mappings) m c =
      at_count (omega arith)
        (entries-Counts force (suc n) mappings _ (parts-Counts force n _ key serial m c))

  counted :
      (force : Bool) (mappings : List (String × String)) (w : W)
      → Counts force
          (length mappings)
          (migrate_entries mapper before_get before_set force mappings (start w))
  counted force mappings w = at_count (omega arith) (
      entries-Counts force 0 mappings (start w)
        (record { listed = refl; bounded = omega arith; all_forced = λ f. refl }))

  -- A migration lists one message for each error that it counts, and counts at most one success or error for
  -- each entry of the configuration.
  pub migrate_entries-counts :
      (force : Bool) (mappings : List (String × String)) (w : W)
      → (length (migrate_entries mapper before_get before_set force mappings (start w)).errors
          ≡ (migrate_entries mapper before_get before_set force mappings (start w)).error_count)
        × ((migrate_entries mapper before_get before_set force mappings (start w)).success_count
              + (migrate_entries mapper before_get before_set force mappings (start w)).error_count
            ≤ length mappings)
  migrate_entries-counts force mappings w =
      let c = counted force mappings w in (c.listed, c.bounded)

  -- With `force`, a migration counts every entry of the configuration as a success or as an error.
  pub migrate_entries-forced :
      (mappings : List (String × String)) (w : W)
      → (migrate_entries mapper before_get before_set true mappings (start w)).success_count
          + (migrate_entries mapper before_get before_set true mappings (start w)).error_count
        ≡ length mappings
  migrate_entries-forced mappings w = let c = counted true mappings w in c.all_forced refl
