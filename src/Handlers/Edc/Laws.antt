-- ===== src/Handlers/Edc/Laws.antt =====
-- What a device's response leaves in the store.
use poselink_api_middleware.Common.{
  ap, ◌∙◌, ◌≡◌, ◌≢◌, ◌⊎◌, ◌↔◌, refl, some, false, Done, ok, err, eq_iff, str_eq, arith, inl, inr,
  Option-cases, Bool-cases,
}
use poselink_api_middleware.Models.{
  EdcResponse, Transaction, status_pending, status_success, status_failed,
}
use poselink_api_middleware.Store
use poselink_api_middleware.Store.{TransactionStore}
use poselink_api_middleware.Handlers.Edc.{
  EdcResponseHandler, Channels, Handled, notified, channel_full, no_channel, status_of,
  set_response, handle_edc_response, updated, notify,
}

pub status_of-cases :
    (r : EdcResponse) → (status_of r ≡ status_success) ⊎ (status_of r ≡ status_failed)
unfolding status_of
status_of-cases r = ground arith

-- A response makes its transaction a success exactly when its status is one of the three texts, and a failure
-- exactly when it is none of them; it never leaves the transaction pending.
pub status_of_iff :
    (r : EdcResponse)
    → ((status_of r ≡ status_success)
        ↔ ((r.status ≡ "success") ⊎ ((r.status ≡ "SUCCESS") ⊎ (r.status ≡ "paid"))))
      × ((status_of r ≡ status_failed)
          ↔ ((r.status ≢ "success") × (r.status ≢ "SUCCESS") × (r.status ≢ "paid")))
      × (str_eq (status_of r) status_pending ≡ false)
unfolding status_of
status_of_iff r =
    let S = eq_iff r.status "success" in
    let U = eq_iff r.status "SUCCESS" in
    let P = eq_iff r.status "paid" in
    let D = eq_iff status_success status_failed in
    (
      (λ e. ground (arith, S, U, P, D), λ o. ground (arith, S, U, P)),
      (
        λ e. (ground (arith, S, U, P, D), ground (arith, S, U, P, D), ground (arith, S, U, P, D)),
        λ n. ground (arith, S, U, P, n.0, n.1, n.2),
      ),
      elim (status_of-cases r) [ inl e ↦ rw e refl | inr e ↦ rw e refl ],
    )

-- The ends of the handler after which the response is in the store.
abbrev pub IsUpdated : Handled → Type 0
IsUpdated notified = Unit {0}
IsUpdated channel_full = Unit {0}
IsUpdated no_channel = Unit {0}
IsUpdated _ = ⊥

module _ {W : Type 0} (h : EdcResponseHandler W) where
  updated_inv :
      (tx : Transaction) (channels : Channels) (r : W × Done)
      → IsUpdated (updated h tx channels r).2
      → (r.1 ≡ ok tt) × ((updated h tx channels r).0 ≡ r.0)
  unfolding updated notify
  updated_inv tx channels (w, ok tt) done = (refl, refl)
  updated_inv tx channels (w, err e) done = absurd done

  -- A handler that got to the notification has updated the store, and nothing after that.
  pub handle_edc_response-updated :
      (acts : W → W) (w : W) (channels : Channels) (r : EdcResponse)
      → IsUpdated (handle_edc_response h acts w channels r).2
      → ((h.store.update (acts w) r.trx_id (some (set_response r))).1 ≡ ok tt)
        × ((handle_edc_response h acts w channels r).0
            ≡ (h.store.update (acts w) r.trx_id (some (set_response r))).0)
  unfolding handle_edc_response
  handle_edc_response-updated acts w channels r done = elim (Bool-cases (str_eq r.trx_id "")) [
    | inl e ↦ absurd (rw (e, handle_edc_response) at done)
    | inr e ↦ elim (Option-cases (h.store.load w r.trx_id)) [
      | inl e' ↦ absurd (rw (e, e') at done)
      | inr (old, e') ↦
          let result = h.store.update (acts w) r.trx_id (some (set_response r)) in
          let final : handle_edc_response h acts w channels r ≡ updated h old channels result =
            ground (arith, e, e') in
          let (ok_update, same) = updated_inv old channels result (rw final at done) in
          (ok_update, ap (λ p. p.0) final ∙ same)
    ]
  ]

module _ {W : Type 0} (h : EdcResponseHandler W) {P : Store.Promise W}
    (L : Store.IsLawful h.store P) where
  -- Over a lawful store, a response whose handler got to the notification is in the store, with its status,
  -- whatever stood there and whatever the rest of the world did.
  pub load-handle_edc_response :
      (acts : W → W) (w : W) (channels : Channels) (r : EdcResponse)
      → IsUpdated (handle_edc_response h acts w channels r).2
      → (tx : Transaction) × (h.store.load (handle_edc_response h acts w channels r).0 r.trx_id
          ≡ some tx)
        × (tx.status ≡ status_of r)
        × (tx.response_data ≡ some r)
  unfolding handle_edc_response
  load-handle_edc_response acts w channels r done =
      let (ok_update, same) = handle_edc_response-updated h acts w channels r done in
      let (tx, now, held) = Store.load-update_self L (acts w) r.trx_id (set_response r) ok_update in
      let new : Transaction = record (set_response r tx) { updated_at = now } in
      (P.kept new, rw same held, rw L.kept_lem, rw L.kept_lem)
