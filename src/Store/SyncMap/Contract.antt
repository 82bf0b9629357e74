-- ===== src/Store/SyncMap/Contract.antt =====
-- The store in memory as a `TransactionStore`: it meets the contract that the handlers rely on, and keeps the
-- channel.
use poselink_api_middleware.Common.{
  ℕ, ◌<◌, ◌≡◌, refl, String, Option, none, some, Done, ok, arith, str_eq, if◌then◌else◌, eq_iff,
  eq_refl, ◌≢◌, inl, inr, Option-cases,
}
use poselink_api_middleware.Models.{Transaction}
use poselink_api_middleware.Store
use poselink_api_middleware.Store.{TransactionStore, Promise}
use poselink_api_middleware.Store.Stamp.{stamp}
use poselink_api_middleware.Store.SyncMap.{Memory, allocate, store, load, update}

-- No entry points to an address that is free, and no two entries to the same.
pub record IsValid (m : Memory) : Type 0 where
  pub low : (j : String) (p : ℕ) → m.entries j ≡ some p → p < m.next
  pub apart : (j k : String) (p : ℕ) → m.entries j ≡ some p → m.entries k ≡ some p → j ≡ k

abbrev pub Process : Type 0
Process = (m : Memory) × IsValid m

pub store-IsValid :
    (m : Memory) (trx_id : String) (p : Option ℕ)
    → IsValid m
    → ((q : ℕ) → p ≡ some q → q < m.next)
    → ((q : ℕ) (j : String) → p ≡ some q → m.entries j ≢ some q)
    → IsValid (store m trx_id p).0
unfolding store
store-IsValid m trx_id p v low fresh = record {
  low = λ j q e. ground (arith, v.low j q, low q);
  apart = λ j k q e g.
      ground (arith, v.apart j k q, fresh q j, fresh q k, eq_iff j trx_id, eq_iff k trx_id);
}

pub update-IsValid :
    (m : Memory) (trx_id : String) (f : Option (Transaction → Transaction))
    → IsValid m
    → IsValid (update m trx_id f).0
unfolding update load
update-IsValid m trx_id f v = record {
  low = λ j q e. ground (arith, v.low j q, v.low trx_id q);
  apart = λ j k q e g. ground (
    arith,
    v.apart j k q,
    v.apart j trx_id q,
    v.apart trx_id k q,
    eq_iff j trx_id,
    eq_iff k trx_id,
  );
}

pub allocate-IsValid : (m : Memory) (tx : Transaction) → IsValid m → IsValid (allocate m tx)
allocate-IsValid m tx v = record { low = λ j q e. omega (arith, v.low j q e); apart = v.apart }

pub allocate-low :
    (m : Memory) (tx : Transaction) (q : ℕ) → some m.next ≡ some q → q < (allocate m tx).next
allocate-low m tx q e = ground arith

-- The address of the new object is in no entry.
pub allocate-fresh :
    (m : Memory) (tx : Transaction)
    → IsValid m
    → (q : ℕ) (j : String) → some m.next ≡ some q
    → m.entries j ≢ some q
allocate-fresh m tx v q j e g = ground (arith, v.low j q g)

-- The caller makes the object, and stores its pointer.
unfoldable pub store_new : Process → String → Option Transaction → Process × Done
store_new (m, v) trx_id none = ((m, v), (store m trx_id none).1)
store_new (m, v) trx_id (some tx) =
    let r = store (allocate m tx) trx_id (some m.next) in
    (
      (
        r.0,
        store-IsValid (allocate m tx) trx_id (some m.next) (allocate-IsValid m tx v)
            (allocate-low m tx) (allocate-fresh m tx v),
      ),
      r.1,
    )

-- The object that a pointer leads to, at this moment.
abbrev pub value : Memory → String → Option Transaction
value m trx_id = elim (load m trx_id) [ none ↦ none | some p ↦ some (m.cells p) ]

unfoldable pub load_value : Process → String → Option Transaction
load_value (m, v) trx_id = value m trx_id

unfoldable pub update_value : Process → String → Option (Transaction → Transaction) → Process × Done
update_value (m, v) trx_id f =
    let r = update m trx_id f in ((r.0, update-IsValid m trx_id f v), r.1)

abbrev pub sync_map_store : TransactionStore Process
sync_map_store = record { store = store_new; load = load_value; update = update_value }

load-store :
    (w : Process) (trx_id : String) (tx : Transaction)
    → (store_new w trx_id (some tx)).1 ≡ ok tt
    → load_value (store_new w trx_id (some tx)).0 trx_id ≡ some (stamp w.0.time tx)
unfolding store_new load_value store load
load-store (m, v) trx_id tx h = ground (arith, eq_refl trx_id)

value-store_ne :
    (m : Memory) (trx_id : String) (tx : Transaction) (j : String)
    → IsValid m
    → j ≢ trx_id
    → value (store (allocate m tx) trx_id (some m.next)).0 j ≡ value m j
unfolding store load
value-store_ne m trx_id tx j v other = elim (Option-cases (m.entries j)) [
  | inl gone ↦ ground (arith, gone, eq_iff j trx_id)
  | inr (p, there) ↦ ground (arith, there, eq_iff j trx_id, v.low j p there)
]

load-store_ne :
    (w : Process) (trx_id : String) (tx : Transaction) (j : String)
    → (store_new w trx_id (some tx)).1 ≡ ok tt
    → j ≢ trx_id
    → load_value (store_new w trx_id (some tx)).0 j ≡ load_value w j
unfolding store_new load_value
load-store_ne (m, v) trx_id tx j h other = value-store_ne m trx_id tx j v other

load-update :
    (w : Process) (trx_id : String) (f : Transaction → Transaction)
    → (update_value w trx_id (some f)).1 ≡ ok tt
    → (tx : Transaction) × (load_value w trx_id ≡ some tx)
      × ((j : String)
          → load_value (update_value w trx_id (some f)).0 j ≡ (
              if str_eq j trx_id
              then some (record (f tx) { updated_at = w.0.time })
              else load_value w j))
unfolding update_value load_value update load
load-update (m, v) trx_id f h = elim (Option-cases (m.entries trx_id)) [
  | inl gone ↦ absurd (ground (arith, gone))
  | inr (p, there) ↦ (
    m.cells p,
    ground (arith, there),
    λ j. elim (Option-cases (m.entries j)) [
      | inl absent ↦ ground (arith, there, absent, eq_iff j trx_id)
      | inr (q, here) ↦ ground (arith, there, here, eq_iff j trx_id, v.apart j trx_id p)
    ],
  )
]

-- It keeps all of a transaction, its channel too, and an `Update` happens in the world of the call.
abbrev pub sync_map_promise : Promise Process
sync_map_promise = record {
  kept = λ tx. tx;
  clock = λ w. w.0.time;
  Within = λ w trx_id f w'. w' ≡ w;
}

-- SyncMapStore, in a valid state, meets the contract of the interface, and keeps all of a transaction, its
-- channel too: what is stored is loaded with its timestamps, an `Update` that succeeds applies its function to
-- the transaction that stood there when it was called and sets `updated_at`, and both leave every other
-- transaction as it was.
pub sync_map_store-IsLawful : Store.IsLawful sync_map_store sync_map_promise
sync_map_store-IsLawful = record {
  kept_lem = λ tx. refl;
  load-store = load-store;
  load-store_ne = load-store_ne;
  load-update =
      λ w trx_id f h. let (tx, found, all) = load-update w trx_id f h in (w, tx, refl, found, all);
}
