-- ===== src/Handlers/Edc/Signals.antt =====
-- The channels of the handler, over the store of the program.
use poselink_api_middleware.Common.{
  ◌≡◌, refl, none, some, Done, ok, err, str_eq, inl, inr, Option-cases, Bool-cases,
}
use poselink_api_middleware.Models.{EdcResponse, Transaction}
use poselink_api_middleware.Store.RedisStore.{CodecIsLawful, RedisTransactionStore, load, update}
use poselink_api_middleware.Store.RedisStore.Saving.{load-notify_chan}
use poselink_api_middleware.Store.RedisStore.Contract.{redis_store}
use poselink_api_middleware.Handlers.Edc.{
  EdcResponseHandler, Channels, Handled, notified, channel_full, set_response, handle_edc_response,
  updated, notify,
}

-- The ends at which the handler has not touched a channel.
abbrev pub IsUnsignalled : Handled → Type 0
IsUnsignalled notified = ⊥
IsUnsignalled channel_full = ⊥
IsUnsignalled _ = Unit {0}

module _ {W : Type 0} (s : RedisTransactionStore W) (C : CodecIsLawful s.json) where
  abbrev handler : EdcResponseHandler W
  handler = record { store = redis_store s }

  updated-IsUnsignalled :
      (tx : Transaction) (channels : Channels) (r : W × Done)
      → tx.notify_chan ≡ none
      → ((updated handler tx channels r).1 ≡ channels)
        × IsUnsignalled (updated handler tx channels r).2
  unfolding updated notify
  updated-IsUnsignalled tx channels (w, err e) bare = (refl, tt)
  updated-IsUnsignalled tx channels (w, ok done) bare = rw bare (refl, tt)

  -- Over the Redis store no response ever signals a channel, where decoding JSON gives no transaction a
  -- channel: every run of the handler leaves the channels as they were, and ends neither in a notification nor
  -- at a full channel.
  pub handle_edc_response-IsUnsignalled :
      (acts : W → W) (w : W) (channels : Channels) (r : EdcResponse)
      → ((handle_edc_response (record { store = redis_store s }) acts w channels r).1 ≡ channels)
        × IsUnsignalled (handle_edc_response (record { store = redis_store s }) acts w channels r).2
  unfolding handle_edc_response
  handle_edc_response-IsUnsignalled acts w channels r = elim (Bool-cases (str_eq r.trx_id "")) [
    | inl e ↦ rw (e, handle_edc_response) (refl, tt)
    | inr e ↦ elim (Option-cases (load s w r.trx_id)) [
      | inl gone ↦ rw (e, gone, handle_edc_response) (refl, tt)
      | inr (tx, found) ↦
          rw (e, found, handle_edc_response)
            (updated-IsUnsignalled tx channels (update s (acts w) r.trx_id (some (set_response r)))
              (load-notify_chan s C w r.trx_id tx found))
    ]
  ]
