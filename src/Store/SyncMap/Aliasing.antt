-- ===== src/Store/SyncMap/Aliasing.antt =====
-- Who sees an update: everyone who holds the pointer.
use poselink_api_middleware.Common.{
  ℕ, ◌≡◌, refl, String, some, ok, arith, str_eq, eq_iff, ◌==◌, if◌then◌else◌, inl, inr, Bool-cases,
  Option-cases,
}
use poselink_api_middleware.Models.{Transaction}
use poselink_api_middleware.Store.SyncMap.{Memory, load, update}

-- An `Update` that succeeds writes one object in place: the one whose pointer `Load` gave before it and gives
-- after it. Every other object, and the pointer of every transaction, is as before. So whoever loaded the
-- transaction earlier reads the update without loading again.
pub update_in_place :
    (m : Memory) (trx_id : String) (f : Transaction → Transaction)
    → (update m trx_id (some f)).1 ≡ ok tt
    → (p : ℕ) × (load m trx_id ≡ some p)
      × ((q : ℕ)
          → (update m trx_id (some f)).0.cells q
            ≡ (if q == p then record (f (m.cells p)) { updated_at = m.time } else m.cells q))
      × ((j : String) → load (update m trx_id (some f)).0 j ≡ load m j)
unfolding update load
update_in_place m trx_id f done = elim (Bool-cases (str_eq trx_id "")) [
  | inl empty ↦ absurd (ground (arith, empty))
  | inr named ↦ elim (Option-cases (m.entries trx_id)) [
    | inl gone ↦ absurd (ground (arith, named, gone))
    | inr (p, there) ↦
        (p, there, λ q. rw (named, there) refl, λ j. ground (arith, named, there, eq_iff j trx_id))
  ]
]
