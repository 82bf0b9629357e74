-- ===== src/Handlers/Hold/Laws.antt =====
-- The hold is what was set last, and touches no transaction.
use Prim.Native.Char.{Char, code}
use Prim.Native.String.{◌∷◌, ◌++◌}
use text.Mathlib.TextLemmas.{cons-append, head-eq_of_cons-eq}
use poselink_api_middleware.Common.{
  ap, ◌≢◌, ◌≡◌, ◌∙◌, sym, refl, String, Option, none, some, Bool, true, false, ok, arith, str_eq,
  eq_refl, if◌then◌else◌,
}
use poselink_api_middleware.Common.Texts.{eq-false_of_ne}
use poselink_api_middleware.Redis.{RedisError, IsLawful}
use poselink_api_middleware.Http.{ResponseWriter}
use poselink_api_middleware.Store.RedisStore.Keys.{transaction_key}
use poselink_api_middleware.Handlers.Hold.{
  HoldHandler, hold_redis_key, is_hold_enabled, set_hold, answer,
}

abbrev t : Char
t = "t"

abbrev q : Char
q = "q"

first-ne : code t ≢ code q
first-ne = omega arith

hold_key-ne : (trx_id : String) → str_eq (transaction_key trx_id) hold_redis_key ≡ false
unfolding transaction_key
hold_key-ne trx_id = eq-false_of_ne _ _ (λ e.
    let same : ◌≡◌ {A = String} (t ∷ ("ransaction:" ++ trx_id)) (q ∷ "a:transaction_hold") =
      sym (cons-append _ "ransaction:" trx_id) ∙ e in
    first-ne (ap code (head-eq_of_cons-eq same)))

module _ {W : Type 0} (h : HoldHandler W) (L : IsLawful h.redis_client) where
  abbrev state_text : Bool → String
  state_text enabled = if enabled then "true" else "false"

  -- The world after Redis took the state.
  abbrev after : W → Bool → W
  after w enabled = (h.redis_client.set w hold_redis_key (state_text enabled) 0).0

  answer-world :
      (enabled : Bool) (r : W × Option RedisError) (out : ResponseWriter)
      → (answer h enabled r out).0 ≡ r.0
  unfolding answer
  answer-world enabled (w, none) out = refl
  answer-world enabled (w, some e) out = refl

  is_hold_enabled-after :
      (w : W) (enabled : Bool)
      → (h.redis_client.set w hold_redis_key (state_text enabled) 0).1 ≡ none
      → is_hold_enabled h (after w enabled) ≡ enabled
  unfolding is_hold_enabled
  is_hold_enabled-after w true taken = ground (
    arith,
    eq_refl hold_redis_key,
    L.set-down w hold_redis_key "true" 0 taken,
    L.set-content w hold_redis_key "true" 0 hold_redis_key taken,
    L.get-reply (after w true) hold_redis_key,
  )
  is_hold_enabled-after w false taken = ground (
    arith,
    eq_refl hold_redis_key,
    L.set-down w hold_redis_key "false" 0 taken,
    L.set-content w hold_redis_key "false" 0 hold_redis_key taken,
    L.get-reply (after w false) hold_redis_key,
  )

  -- On a lawful Redis that takes the new state of the hold, the hold is enabled afterwards if and only if the
  -- request said so, and the text under the key of every transaction is as before.
  pub is_hold_enabled-set_hold :
      (w : W) (out : ResponseWriter) (enabled : Bool) (trx_id : String)
      → (h.redis_client.set w hold_redis_key (if enabled then "true" else "false") 0).1 ≡ none
      → (is_hold_enabled h (set_hold h w out (ok enabled)).0 ≡ enabled)
        × (L.content (set_hold h w out (ok enabled)).0 (transaction_key trx_id)
            ≡ L.content w (transaction_key trx_id))
  unfolding set_hold
  is_hold_enabled-set_hold w out enabled trx_id taken =
      let same =
        answer-world enabled (h.redis_client.set w hold_redis_key (state_text enabled) 0) out in
      let other =
        L.set-content w hold_redis_key (state_text enabled) 0 (transaction_key trx_id) taken in
      (
        ap (is_hold_enabled h) same ∙ is_hold_enabled-after w enabled taken,
        ap (λ (x : W). L.content x (transaction_key trx_id)) same
            ∙ (other ∙ rw (hold_key-ne trx_id) refl),
      )
