-- ===== src/Store/SyncMap.antt =====
-- `SyncMapStore` of internal/store/store.go, a store in the memory of the process. It keeps the pointers that it is
-- given, so the caller of `Store`, those of `Load` and the store share one object.
pub mod Aliasing
pub mod Contract
pub mod Locking
use poselink_api_middleware.Common.{
  ℕ, ◌+◌, ◌<>◌, String, Option, none, some, Done, ok, err, str_eq, ◌==◌, if◌then◌else◌,
}
use poselink_api_middleware.Models.{Transaction}
use poselink_api_middleware.Store.Stamp.{stamp}

-- The objects by address, the first address that is free, the map `data` of the store, and the clock.
pub record Memory : Type 0 where
  pub cells : ℕ → Transaction
  pub next : ℕ
  pub entries : String → Option ℕ
  pub time : ℕ

abbrev pub write : (ℕ → Transaction) → ℕ → Transaction → ℕ → Transaction
write cells p tx q = if q == p then tx else cells q

abbrev pub enter : (String → Option ℕ) → String → ℕ → String → Option ℕ
enter entries trx_id p j = if str_eq j trx_id then some p else entries j

-- `&models.Transaction{…}`
abbrev pub allocate : Memory → Transaction → Memory
allocate m tx = record m { cells = write m.cells m.next tx; next = m.next + 1 }

-- `Store`; a nil pointer is `none`. The timestamps are set in the caller's object.
unfoldable pub store : Memory → String → Option ℕ → Memory × Done
store m trx_id tx = if str_eq trx_id "" then (m, err "trxID cannot be empty") else elim tx [
  | none ↦ (m, err "transaction cannot be nil")
  | some p ↦ (
    record m {
      cells = write m.cells p (stamp m.time (m.cells p));
      entries = enter m.entries trx_id p;
    },
    ok tt,
  )
]

-- `Load` returns the pointer. The assertion on its type holds, since only `Store` and `Update` enter values.
unfoldable pub load : Memory → String → Option ℕ
load m trx_id = m.entries trx_id

-- `Update` while it holds the lock of the transaction; a nil function is `none`.
unfoldable pub update : Memory → String → Option (Transaction → Transaction) → Memory × Done
unfolding load
update m trx_id update_fn =
    if str_eq trx_id "" then (m, err "trxID cannot be empty") else elim update_fn [
      | none ↦ (m, err "updateFn cannot be nil")
      | some f ↦ elim (load m trx_id) [
        | none ↦ (m, err ("transaction not found: " <> trx_id))
        | some p ↦ (
          record m {
            cells = write m.cells p (record (f (m.cells p)) { updated_at = m.time });
            entries = enter m.entries trx_id p;
          },
          ok tt,
        )
      ]
    ]

-- `NewSyncMapStore`, in a process with some objects already.
abbrev pub new_sync_map_store : (ℕ → Transaction) → ℕ → ℕ → Memory
new_sync_map_store cells next time = record {
  cells = cells;
  next = next;
  entries = λ j. none;
  time = time;
}
