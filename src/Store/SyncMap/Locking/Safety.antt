-- ===== src/Store/SyncMap/Locking/Safety.antt =====
-- What the locks are for: one goroutine at a time, and no lost update.
use poselink_api_middleware.Common.{
  ℕ, ◌≡◌, ◌≢◌, refl, ◌∙◌, Option, some, Bool, true, false, List, ◌∷◌, ◌==◌, arith, inl, inr,
  Bool-cases,
}
use poselink_api_middleware.Models.{Transaction}
use poselink_api_middleware.Store.SyncMap.Locking.{
  Call, Pc, fetching, locking, locked, loaded, applied, stamped, leaving, returned, System, set,
  Step, make_mutex, find_mutex, lock, miss, find, apply, touch, put_back, unlock, Reach, start,
  later, replay, holds, is_applied, count,
}
use poselink_api_middleware.Store.SyncMap.Locking.Invariant.{
  Locks, Locks-alone, Reach-Locks, Reach-count,
}

applied-holds : (p : Pc) → is_applied p ≡ true → (m : ℕ) × (holds p ≡ some m)
applied-holds (applied m) h = (m, refl)
applied-holds fetching h = cc
applied-holds (locking m) h = cc
applied-holds (locked m) h = cc
applied-holds (loaded m) h = cc
applied-holds (stamped m) h = cc
applied-holds (leaving m success) h = cc
applied-holds (returned success) h = cc

-- While a goroutine holds the lock, no other is midway.
alone :
    {s : System} (i j m : ℕ)
    → Locks s
    → holds (s.pc i) ≡ some m
    → j ≢ i
    → is_applied (s.pc j) ≡ false
alone {s} i j m l h other = elim (Bool-cases (is_applied (s.pc j))) [
  | inl e ↦ let (n, g) = applied-holds (s.pc j) e in absurd (other (Locks-alone l j i n m g h))
  | inr e ↦ e
]

none_midway :
    {s : System} (i m : ℕ)
    → Locks s
    → holds (s.pc i) ≡ some m
    → is_applied (s.pc i) ≡ false
    → (j : ℕ) → is_applied (s.pc j) ≡ false
none_midway {s} i m l h out j = elim (Bool-cases (j == i)) [
  | inl e ↦ ground (arith, e, out)
  | inr e ↦ alone i j m l h (ground (arith, e))
]

module _ (calls : ℕ → Call) (tx : Transaction) where
  -- What the object holds: while a goroutine has applied its function and not yet set the time, the object lacks
  -- only that; else it is what the functions make one after the other.
  record Replays (s : System) : Type 0 where
    midway :
        (j : ℕ)
        → is_applied (s.pc j) ≡ true
        → (rest : List ℕ) × (s.applications ≡ j ∷ rest)
          × (s.object ≡ (calls j).update_fn (replay calls tx rest))
    settled : ((j : ℕ) → is_applied (s.pc j) ≡ false) → s.object ≡ replay calls tx s.applications

  -- A move that neither starts nor ends such a moment.
  moved-Replays :
      {s : System} (i : ℕ) (p : Pc) (mutex : Option ℕ) (holder : ℕ → Option ℕ)
      → is_applied (s.pc i) ≡ false
      → is_applied p ≡ false
      → Replays s
      → Replays (record s { mutex = mutex; holder = holder; pc = set s.pc i p })
  moved-Replays {s} i p mutex holder before after k = record {
    midway = λ j e. k.midway j (ground arith);
    settled = λ q. k.settled (λ j. ground (arith, q j));
  }

  Step-Replays : (i : ℕ) {s t : System} → Step calls i s t → Locks s → Replays s → Replays t
  unfolding replay
  Step-Replays i (make_mutex at free) l k = moved-Replays i _ _ _ (rw at refl) refl k
  Step-Replays i (find_mutex m at there) l k = moved-Replays i _ _ _ (rw at refl) refl k
  Step-Replays i (lock m at free) l k = moved-Replays i _ _ _ (rw at refl) refl k
  Step-Replays i (miss m at gone) l k = moved-Replays i _ _ _ (rw at refl) refl k
  Step-Replays i (find m at there) l k = moved-Replays i _ _ _ (rw at refl) refl k
  Step-Replays i (put_back m at) l k = moved-Replays i _ _ _ (rw at refl) refl k
  Step-Replays i (unlock m success at) l k = moved-Replays i _ _ _ (rw at refl) refl k
  Step-Replays i {s} (apply m at) l k =
      let holding : holds (s.pc i) ≡ some m = rw at refl in
      let before = k.settled (none_midway i m l holding (rw at refl)) in
      record {
        midway = λ j e. elim (Bool-cases (j == i)) [
          | inl same ↦
              let eq : j ≡ i = ground (arith, same) in
              (s.applications, ground (arith, eq), ground (arith, eq, before))
          | inr other ↦
              let out = alone i j m l holding (ground (arith, other)) in
              absurd (ground (arith, other, out, e))
        ];
        settled = λ q. absurd (ground (arith, q i));
      }
  Step-Replays i {s} (touch m at) l k =
      let holding : holds (s.pc i) ≡ some m = rw at refl in
      let (rest, applications, object) = k.midway i (rw at refl) in
      record {
        midway = λ j e. elim (Bool-cases (j == i)) [
          | inl same ↦ absurd (ground (arith, same, e))
          | inr other ↦
              let out = alone i j m l holding (ground (arith, other)) in
              absurd (ground (arith, other, out, e))
        ];
        settled = λ q. rw (applications, object) refl;
      }

  Reach-Replays : {present : Bool} {s : System} → Reach calls present tx s → Replays s
  unfolding replay
  Reach-Replays start = record { midway = λ j e. cc; settled = λ q. refl }
  Reach-Replays (later i r step) = Step-Replays i step (Reach-Locks calls r) (Reach-Replays r)

module _ (calls : ℕ → Call) {present : Bool} {tx : Transaction} {s : System}
    (r : Reach calls present tx s) where
  -- Two goroutines never hold the lock of the transaction together.
  pub mutual_exclusion : (i j m n : ℕ) → holds (s.pc i) ≡ some m → holds (s.pc j) ≡ some n → i ≡ j
  mutual_exclusion i j m n h g = Locks-alone (Reach-Locks calls r) i j m n h g

  -- No update is lost. In whatever order the goroutines have taken turns from their start on, once none of
  -- them stands between its function and the timestamp, the object is what the functions that were applied
  -- make one after the other, each with its timestamp, and a goroutine that has returned with success is
  -- exactly once among them.
  pub no_lost_update :
      (i : ℕ)
      → ((j : ℕ) → is_applied (s.pc j) ≡ false)
      → s.pc i ≡ returned true
      → (s.object ≡ replay calls tx s.applications) × (count i s.applications ≡ 1)
  no_lost_update i quiet done =
      let k = Reach-Replays calls tx r in (k.settled quiet, Reach-count calls r i ∙ rw done refl)
