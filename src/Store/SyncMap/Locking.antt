-- ===== src/Store/SyncMap/Locking.antt =====
-- Goroutines that run `Update` of internal/store/store.go for the same transaction, interleaved in any order: one
-- access to shared data at a time. `mutexes` never loses an entry.
pub mod Invariant
pub mod Safety
use poselink_api_middleware.Common.{
  ℕ, ◌+◌, ◌≡◌, Option, none, some, Bool, true, false, List, [], ◌∷◌, ◌==◌, if◌then◌else◌,
}
use poselink_api_middleware.Models.{Transaction}

-- What the goroutine of a number was called with, and the time that it reads.
pub record Call : Type 0 where
  pub update_fn : Transaction → Transaction
  pub now : ℕ

-- Where a goroutine stands; a mutex has the number of the goroutine that made it.
pub data Pc : Type 0 where
  fetching : Pc  -- before `LoadOrStore`
  locking : (mutex : ℕ) → Pc  -- at `Lock`
  locked : (mutex : ℕ) → Pc  -- before `Load`
  loaded : (mutex : ℕ) → Pc  -- before `updateFn(tx)`
  applied : (mutex : ℕ) → Pc  -- before the timestamp
  stamped : (mutex : ℕ) → Pc  -- before `s.data.Store`
  leaving : (mutex : ℕ) → (success : Bool) → Pc  -- before the deferred `Unlock`
  returned : (success : Bool) → Pc

-- The entry of `mutexes` and that of `data` under the transaction's id, the object that the latter points to, who
-- holds each mutex, and where the goroutines stand. `applications` records the goroutines in the order in which
-- they applied their functions, the latest first.
pub record System : Type 0 where
  pub mutex : Option ℕ
  pub present : Bool
  pub object : Transaction
  pub holder : ℕ → Option ℕ
  pub pc : ℕ → Pc
  pub applications : List ℕ

abbrev pub set {ℓ} : {A : Type ℓ} → (ℕ → A) → ℕ → A → ℕ → A
set f i a j = if j == i then a else f j

module _ (calls : ℕ → Call) where
  -- One step of the goroutine `i`.
  pub data Step (i : ℕ) (s : System) : System → Type 0 where
    make_mutex :
        s.pc i ≡ fetching
        → s.mutex ≡ none
        → Step i s (record s { mutex = some i; pc = set s.pc i (locking i) })
    find_mutex :
        (m : ℕ)
        → s.pc i ≡ fetching
        → s.mutex ≡ some m
        → Step i s (record s { pc = set s.pc i (locking m) })
    lock :
        (m : ℕ)
        → s.pc i ≡ locking m
        → s.holder m ≡ none
        → Step i s (record s { holder = set s.holder m (some i); pc = set s.pc i (locked m) })
    miss :
        (m : ℕ)
        → s.pc i ≡ locked m
        → s.present ≡ false
        → Step i s (record s { pc = set s.pc i (leaving m false) })
    find :
        (m : ℕ)
        → s.pc i ≡ locked m
        → s.present ≡ true
        → Step i s (record s { pc = set s.pc i (loaded m) })
    apply :
        (m : ℕ)
        → s.pc i ≡ loaded m
        → Step i s (record s {
          object = (calls i).update_fn s.object;
          pc = set s.pc i (applied m);
          applications = i ∷ s.applications;
        })
    touch :
        (m : ℕ)
        → s.pc i ≡ applied m
        → Step i s (record s {
          object = record s.object { updated_at = (calls i).now };
          pc = set s.pc i (stamped m);
        })
    -- The pointer that is there is stored again.
    put_back :
        (m : ℕ) → s.pc i ≡ stamped m → Step i s (record s { pc = set s.pc i (leaving m true) })
    unlock :
        (m : ℕ) (success : Bool)
        → s.pc i ≡ leaving m success
        → Step i s (record s { holder = set s.holder m none; pc = set s.pc i (returned success) })

  -- At first no goroutine has begun, and none holds a mutex.
  abbrev pub init : Bool → Transaction → System
  init present tx = record {
    mutex = none;
    present = present;
    object = tx;
    holder = λ m. none;
    pc = λ i. fetching;
    applications = [];
  }

  pub data Reach (present : Bool) (tx : Transaction) : System → Type 0 where
    start : Reach present tx (init present tx)
    later : {s t : System} (i : ℕ) → Reach present tx s → Step i s t → Reach present tx t

  -- The updates of these goroutines one after the other, the last in the list first.
  unfoldable pub replay : Transaction → List ℕ → Transaction
  replay tx [] = tx
  replay tx (i ∷ is) = record ((calls i).update_fn (replay tx is)) { updated_at = (calls i).now }

-- The mutex that a goroutine holds.
abbrev pub holds : Pc → Option ℕ
holds fetching = none
holds (locking m) = none
holds (locked m) = some m
holds (loaded m) = some m
holds (applied m) = some m
holds (stamped m) = some m
holds (leaving m success) = some m
holds (returned success) = none

-- The mutex that a goroutine has found.
abbrev pub knows : Pc → Option ℕ
knows fetching = none
knows (locking m) = some m
knows (locked m) = some m
knows (loaded m) = some m
knows (applied m) = some m
knows (stamped m) = some m
knows (leaving m success) = some m
knows (returned success) = none

-- Between `updateFn(tx)` and the timestamp.
abbrev pub is_applied : Pc → Bool
is_applied (applied m) = true
is_applied _ = false

-- How often a goroutine has applied its function.
abbrev pub applied_times : Pc → ℕ
applied_times (applied m) = 1
applied_times (stamped m) = 1
applied_times (leaving m true) = 1
applied_times (returned true) = 1
applied_times _ = 0

abbrev pub count : ℕ → List ℕ → ℕ
count i [] = 0
count i (j ∷ js) = (if j == i then 1 else 0) + count i js
