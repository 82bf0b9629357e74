-- ===== src/Tests/Goroutines.antt =====
-- The store in memory, and two goroutines that update a sale in it.
use poselink_api_middleware.Common.{
  ℕ, ◌+◌, ◌≡◌, refl, String, some, true, [], ◌∷◌, arith, ◌==◌, if◌then◌else◌,
}
use poselink_api_middleware.Models.{Transaction}
use poselink_api_middleware.Store.Stamp.{stamp}
use poselink_api_middleware.Store.SyncMap.{
  Memory, allocate, store, load, update, new_sync_map_store,
}
use poselink_api_middleware.Store.SyncMap.Aliasing.{update_in_place}
use poselink_api_middleware.Store.SyncMap.Locking.{
  Call, System, make_mutex, find_mutex, lock, find, apply, touch, put_back, unlock, Reach, start,
  later, replay, count,
}
use poselink_api_middleware.Store.SyncMap.Locking.Safety.{no_lost_update}
use poselink_api_middleware.Tests.Samples.{sale}

runs : Unit {0}
unfolding store load update stamp
runs = tt

abbrev fail_sale : Transaction → Transaction
fail_sale tx = record tx { status = "FAILED" }

memory : Memory
unfolding runs
memory = (store (allocate (new_sync_map_store (λ p. sale) 0 3) sale) "T1" (some 0)).0

update_in_place_example :
    (p : ℕ) × (load memory "T1" ≡ some p)
    × ((q : ℕ)
        → (update memory "T1" (some fail_sale)).0.cells q ≡ (
            if q == p
            then record (fail_sale (memory.cells p)) { updated_at = memory.time }
            else memory.cells q))
    × ((j : String) → load (update memory "T1" (some fail_sale)).0 j ≡ load memory j)
unfolding runs memory
update_in_place_example = update_in_place memory "T1" fail_sale refl

abbrev calls : ℕ → Call
calls i = record { update_fn = fail_sale; now = 10 + i }

-- The first goroutine has the lock, and the second waits for it.
abbrev waiting : (s : System) × Reach calls true sale s
waiting = (
  _,
  later 1 (later 0 (later 0 start (make_mutex refl refl)) (lock 0 refl refl))
      (find_mutex 0 refl refl),
)

-- The first goroutine has returned.
abbrev finished : (s : System) × Reach calls true sale s
finished = (
  _,
  later 0
      (later 0
        (later 0 (later 0 (later 0 waiting.1 (find 0 refl refl)) (apply 0 refl)) (touch 0 refl))
        (put_back 0 refl))
      (unlock 0 true refl),
)

no_lost_update_example :
    (finished.0.object ≡ replay calls sale (0 ∷ [])) × (count 0 finished.0.applications ≡ 1)
no_lost_update_example = no_lost_update calls finished.1 0 (λ j. ground arith) refl
