-- ===== src/Store.antt =====
-- The interface `TransactionStore` of internal/store/store.go, over the world `W` that a store acts on, and
-- what its clients rely on. `Stamp` is the timestamping that both implementations share.
pub mod Stamp
pub mod Connecting
pub mod RedisStore
pub mod SyncMap
use poselink_api_middleware.Common.{
  ℕ, ◌≡◌, ◌≢◌, ◌∙◌, refl, String, Option, none, some, Done, ok, str_eq, eq_refl, if◌then◌else◌,
}
use poselink_api_middleware.Models.{Transaction}
use poselink_api_middleware.Store.Stamp.{stamp}

pub record TransactionStore (W : Type 0) : Type 0 where
  pub store : W → String → Option Transaction → W × Done
  pub load : W → String → Option Transaction
  pub update : W → String → Option (Transaction → Transaction) → W × Done

-- What a store promises: how much it keeps of a transaction, its clock, and between which worlds an `Update`
-- happens: `Within w trx_id f w'` says that a call in `w` may find that others have led the world to `w'`.
pub record Promise (W : Type 0) : Type 1 where
  pub kept : Transaction → Transaction
  pub clock : W → ℕ
  pub Within : W → String → (Transaction → Transaction) → W → Type 0

-- A store that keeps its promise, by which it may drop the channel only. A `Store` changes one transaction, and an
-- `Update` applies its function to the transaction that stands in the store at one moment of the call, and changes
-- nothing else.
pub record IsLawful {W : Type 0} (S : TransactionStore W) (P : Promise W) : Type 0 where
  pub kept_lem :
      (tx : Transaction) → P.kept tx ≡ record tx { notify_chan = (P.kept tx).notify_chan }
  pub load-store :
      (w : W) (trx_id : String) (tx : Transaction)
      → (S.store w trx_id (some tx)).1 ≡ ok tt
      → S.load (S.store w trx_id (some tx)).0 trx_id ≡ some (P.kept (stamp (P.clock w) tx))
  pub load-store_ne :
      (w : W) (trx_id : String) (tx : Transaction) (j : String)
      → (S.store w trx_id (some tx)).1 ≡ ok tt
      → j ≢ trx_id
      → S.load (S.store w trx_id (some tx)).0 j ≡ S.load w j
  pub load-update :
      (w : W) (trx_id : String) (f : Transaction → Transaction)
      → (S.update w trx_id (some f)).1 ≡ ok tt
      → (w' : W) × (tx : Transaction) × P.Within w trx_id f w'
        × (S.load w' trx_id ≡ some tx)
        × ((j : String)
            → S.load (S.update w trx_id (some f)).0 j ≡ (
                if str_eq j trx_id
                then some (P.kept (record (f tx) { updated_at = P.clock w' }))
                else S.load w' j))

-- The transaction of an `Update` alone.
pub load-update_self :
    {W : Type 0} {S : TransactionStore W} {P : Promise W} (L : IsLawful S P) (w : W)
    (trx_id : String) (f : Transaction → Transaction)
    → (S.update w trx_id (some f)).1 ≡ ok tt
    → (tx : Transaction) × (now : ℕ) × (S.load (S.update w trx_id (some f)).0 trx_id
        ≡ some (P.kept (record (f tx) { updated_at = now })))
load-update_self {P = P} L w trx_id f done =
    let (w', tx, within, found, all) = L.load-update w trx_id f done in
    (tx, P.clock w', all trx_id ∙ rw (eq_refl trx_id) refl)
