-- ===== src/Store/SyncMap/Locking/Invariant.antt =====
-- What every interleaving keeps.
use poselink_api_middleware.Common.{ℕ, ◌≡◌, refl, some, Bool, true, false, List, arith}
use poselink_api_middleware.Models.{Transaction}
use poselink_api_middleware.Store.SyncMap.Locking.{
  Call, Pc, System, set, Step, make_mutex, find_mutex, lock, miss, find, apply, touch, put_back,
  unlock, Reach, start, later, holds, knows, applied_times, count,
}

-- All goroutines have found the mutex of the transaction, and the one that holds it is its holder.
pub record Locks (s : System) : Type 0 where
  pub same : (i m : ℕ) → knows (s.pc i) ≡ some m → s.mutex ≡ some m
  pub held : (i m : ℕ) → holds (s.pc i) ≡ some m → s.holder m ≡ some i
  pub back : (i m : ℕ) → s.holder m ≡ some i → holds (s.pc i) ≡ some m

holds-knows : (p : Pc) (m : ℕ) → holds p ≡ some m → knows p ≡ some m
holds-knows p m h = ground arith

-- Two goroutines that hold a mutex are the same.
pub Locks-alone :
    {s : System}
    → Locks s
    → (i j m n : ℕ) → holds (s.pc i) ≡ some m
    → holds (s.pc j) ≡ some n
    → i ≡ j
Locks-alone {s} k i j m n h g = ground (
  arith,
  k.same i m (holds-knows _ m h),
  k.same j n (holds-knows _ n g),
  k.held i m h,
  k.held j n g,
)

-- A goroutine goes on with what it knows and holds.
moved-Locks :
    {s : System} (i : ℕ) (p : Pc) (object : Transaction) (applications : List ℕ)
    → knows p ≡ knows (s.pc i)
    → holds p ≡ holds (s.pc i)
    → Locks s
    → Locks (record s { object = object; applications = applications; pc = set s.pc i p })
moved-Locks i p object applications e h k = record {
  same = λ j m g. ground (arith, k.same j m);
  held = λ j m g. ground (arith, k.held j m);
  back = λ j m g. ground (arith, k.back j m);
}

module _ (calls : ℕ → Call) where
  Step-Locks : (i : ℕ) {s t : System} → Step calls i s t → Locks s → Locks t
  Step-Locks i {s} (make_mutex at free) k = record {
    same = λ j m e. ground (arith, k.same j m);
    held = λ j m e. ground (arith, k.held j m);
    back = λ j m e. ground (arith, k.back j m);
  }
  Step-Locks i {s} (find_mutex m at there) k = record {
    same = λ j n e. ground (arith, k.same j n);
    held = λ j n e. ground (arith, k.held j n);
    back = λ j n e. ground (arith, k.back j n);
  }
  Step-Locks i {s} (lock m at free) k = record {
    same = λ j n e. ground (arith, k.same j n, k.same i n);
    held = λ j n e. ground (arith, k.held j n, k.same j n, k.same i m);
    back = λ j n e. ground (arith, k.back j n);
  }
  Step-Locks i {s} (miss m at gone) k = moved-Locks i _ _ _ (rw at refl) (rw at refl) k
  Step-Locks i {s} (find m at there) k = moved-Locks i _ _ _ (rw at refl) (rw at refl) k
  Step-Locks i {s} (apply m at) k = moved-Locks i _ _ _ (rw at refl) (rw at refl) k
  Step-Locks i {s} (touch m at) k = moved-Locks i _ _ _ (rw at refl) (rw at refl) k
  Step-Locks i {s} (put_back m at) k = moved-Locks i _ _ _ (rw at refl) (rw at refl) k
  Step-Locks i {s} (unlock m success at) k = record {
    same = λ j n e. ground (arith, k.same j n);
    held = λ j n e. ground (arith, k.held j n, k.held i m);
    back = λ j n e. ground (arith, k.back j n);
  }

  pub Reach-Locks :
      {present : Bool} {tx : Transaction} {s : System} → Reach calls present tx s → Locks s
  Reach-Locks start = record { same = λ i m e. cc; held = λ i m e. cc; back = λ i m e. cc }
  Reach-Locks (later i r step) = Step-Locks i step (Reach-Locks r)

  -- Each goroutine has applied its function as often as its place says.
  IsCounted : System → Type 0
  IsCounted s = (j : ℕ) → count j s.applications ≡ applied_times (s.pc j)

  Step-IsCounted : (i : ℕ) {s t : System} → Step calls i s t → IsCounted s → IsCounted t
  unfolding IsCounted
  Step-IsCounted i (make_mutex at free) c j = ground (arith, c j)
  Step-IsCounted i (find_mutex m at there) c j = ground (arith, c j)
  Step-IsCounted i (lock m at free) c j = ground (arith, c j)
  Step-IsCounted i (miss m at gone) c j = ground (arith, c j)
  Step-IsCounted i (find m at there) c j = ground (arith, c j)
  Step-IsCounted i (apply m at) c j = ground (arith, c j)
  Step-IsCounted i (touch m at) c j = ground (arith, c j)
  Step-IsCounted i (put_back m at) c j = ground (arith, c j)
  Step-IsCounted i (unlock m true at) c j = ground (arith, c j)
  Step-IsCounted i (unlock m false at) c j = ground (arith, c j)

  pub Reach-count :
      {present : Bool} {tx : Transaction} {s : System}
      → Reach calls present tx s
      → (j : ℕ) → count j s.applications ≡ applied_times (s.pc j)
  unfolding IsCounted
  Reach-count start j = refl
  Reach-count (later i r step) j = Step-IsCounted i step (Reach-count r) j
