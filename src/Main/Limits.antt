-- ===== src/Main/Limits.antt =====
-- What `main` makes of a configuration: the parts, and their timeouts.
use mathlib.Core.List.{Memᴰ}
use poselink_api_middleware.Common.{
  String, List, true, some, ◌⊎◌, ℕ, ◌+◌, ◌-◌, ◌*◌, ◌^◌, ◌≤◌, ◌<◌, ◌≡◌, ◌∙◌, refl, ap, sym, Result,
  ok, err, Done, arith, inl, inr, Result-cases,
}
use poselink_api_middleware.Common.Int.{pos}
use poselink_api_middleware.Common.Durations.{
  second, in_seconds, add_int64_fits, in_seconds_wraps, add_int64-in_seconds,
}
use poselink_api_middleware.Redis.{Redis}
use poselink_api_middleware.Config.{Config, load_config}
use poselink_api_middleware.Store.Connecting.{redis_options}
use poselink_api_middleware.Ably.Client.{AblyClient, new_ably_client}
use poselink_api_middleware.Models.{PaymentRequest}
use poselink_api_middleware.Http.{ResponseWriter, new_writer}
use poselink_api_middleware.Handlers.Transaction.{Schedule, answered, new_transaction_handler}
use poselink_api_middleware.Handlers.Transaction.Timing.{Round, handle_timed, is_done-cases}
use poselink_api_middleware.Handlers.Transaction.Timely.{handle_timed-Timely}
use poselink_api_middleware.Main.{
  Host, App, redis_config, new_app, main, connected, with_redis, subscribed,
}

pub ok_injective : {E A : Type 0} {a b : A} → ◌≡◌ {A = Result E A} (ok a) (ok b) → a ≡ b
ok_injective e = cc

module _ {W : Type 0} (host : Host W) where
  -- A start that succeeds has loaded a configuration and made both clients of it, and the parts are wired to them.
  pub record Started (app : App W) : Type 0 where
    pub cfg : Config
    pub client : Redis W
    pub ably_client : AblyClient W
    pub loaded : load_config host.env host.parse_mappings ≡ ok cfg
    pub opened : client ≡ host.new_client (redis_options (redis_config cfg))
    pub made : new_ably_client host.ably cfg.ably_api_key cfg.encryption_secret ≡ ok ably_client
    pub wired : app ≡ new_app host cfg client ably_client

  subscribed-ok :
      (cfg : Config) (client : Redis W) (a : AblyClient W) (r : W × Done) (app : App W)
      → (subscribed host cfg client a r).1 ≡ ok app
      → app ≡ new_app host cfg client a
  unfolding subscribed
  subscribed-ok cfg client a (w, ok done) app h = ok_injective (sym h)
  subscribed-ok cfg client a (w, err e) app h = cc

  with_redis-ok :
      (cfg : Config) (client : Redis W) (w : W) (app : App W)
      → (with_redis host cfg client w).1 ≡ ok app
      → (a : AblyClient W) × (new_ably_client host.ably cfg.ably_api_key cfg.encryption_secret
          ≡ ok a)
        × (app ≡ new_app host cfg client a)
  unfolding with_redis
  with_redis-ok cfg client w app h =
      elim (Result-cases (new_ably_client host.ably cfg.ably_api_key cfg.encryption_secret)) [
        | inr (e, failed) ↦ absurd (ground (arith, failed, h))
        | inl (a, made) ↦ (a, made, subscribed-ok cfg client a _ app (rw (made, with_redis) at h))
      ]

  connected-ok :
      (cfg : Config) (client : Redis W) (r : W × Done) (app : App W)
      → (connected host cfg client r).1 ≡ ok app
      → (a : AblyClient W) × (new_ably_client host.ably cfg.ably_api_key cfg.encryption_secret
          ≡ ok a)
        × (app ≡ new_app host cfg client a)
  unfolding connected
  connected-ok cfg client (w, ok done) app h = with_redis-ok cfg client w app h
  connected-ok cfg client (w, err e) app h = cc

  pub main-Started : (w : W) (app : App W) → (main host w).1 ≡ ok app → Started app
  unfolding main
  main-Started w app h = elim (Result-cases (load_config host.env host.parse_mappings)) [
    | inr (e, failed) ↦ absurd (ground (arith, failed, h))
    | inl (cfg, loaded) ↦
        let client = host.new_client (redis_options (redis_config cfg)) in
        let (a, made, wired) = connected-ok cfg client _ app (rw (loaded, main) at h) in
        record {
          cfg = cfg;
          client = client;
          ably_client = a;
          loaded = loaded;
          opened = refl;
          made = made;
          wired = wired;
        }
  ]

  configured :
      (w : W) (app : App W) (cfg : Config)
      → (main host w).1 ≡ ok app
      → load_config host.env host.parse_mappings ≡ ok cfg
      → (s : Started app) × (s.cfg.timeout_duration ≡ cfg.timeout_duration)
  configured w app cfg h loaded =
      let s = main-Started w app h in
      (s, ap Config.timeout_duration (ok_injective (sym s.loaded ∙ loaded)))

  -- For a program that starts with a positive timeout of `t` nanoseconds, short of the largest number by 15
  -- seconds: where its payment handler answers 408, one of the moments of the polling loop was at least `t`
  -- after the loop's start, or the client had gone by then; and the server's WriteTimeout is `t` and 15
  -- seconds.
  pub main-timeouts :
      (w w₁ w₂ : W) (app : App W) (cfg : Config) (t : ℕ) (schedule : Schedule W)
      (moments : List (Round W)) (body : Result String PaymentRequest) (out : ResponseWriter)
      → (main host w).1 ≡ ok app
      → load_config host.env host.parse_mappings ≡ ok cfg
      → cfg.timeout_duration ≡ pos t
      → 0 < t
      → t + 15 * second < 2 ^ 63
      → handle_timed app.transaction_handler schedule moments w₁ new_writer body ≡ answered w₂ out
      → out.status ≡ some 408
      → (app.server.write_timeout ≡ pos (t + 15 * second))
        × (m : Round W) × Memᴰ m moments
        × ((m.gone ≡ true) ⊎ (t ≤ m.time))
  unfolding new_app new_transaction_handler
  main-timeouts w w₁ w₂ app cfg t schedule moments body out h loaded long positive fits e late =
      let (s, kept) = configured w app cfg h loaded in
      let same : s.cfg.timeout_duration ≡ pos t = kept ∙ long in
      let sum = add_int64_fits t (15 * second) fits in
      let waits : app.transaction_handler.timeout_duration ≡ pos t =
        rw (s.wired, same) (ground arith) in
      let done =
        handle_timed-Timely app.transaction_handler schedule moments w₁ w₂ body out e late in
      let (m, mem, cause) = is_done-cases t moments (rw waits at done) in
      (rw (s.wired, same) sum, m, mem, cause)

  -- For a program that starts with a timeout of 18446744059 to 18446744073 seconds: where its payment handler
  -- answers 408, one of the moments of the polling loop was at least 60 seconds after the loop's start, or the
  -- client had gone by then; but the server's WriteTimeout is below 15 seconds.
  pub main-timeouts_wrap :
      (w w₁ w₂ : W) (app : App W) (cfg : Config) (n : ℕ) (schedule : Schedule W)
      (moments : List (Round W)) (body : Result String PaymentRequest) (out : ResponseWriter)
      → (main host w).1 ≡ ok app
      → load_config host.env host.parse_mappings ≡ ok cfg
      → cfg.timeout_duration ≡ in_seconds (pos n)
      → 18_446_744_059 ≤ n
      → n ≤ 18_446_744_073
      → handle_timed app.transaction_handler schedule moments w₁ new_writer body ≡ answered w₂ out
      → out.status ≡ some 408
      → ((t : ℕ) × (app.server.write_timeout ≡ pos t) × (t < 15 * second))
        × (m : Round W) × Memᴰ m moments
        × ((m.gone ≡ true) ⊎ (60 * second ≤ m.time))
  unfolding new_app new_transaction_handler
  main-timeouts_wrap w w₁ w₂ app cfg n schedule moments body out h loaded long low high e late =
      let (s, kept) = configured w app cfg h loaded in
      let same : s.cfg.timeout_duration ≡ in_seconds (pos n) = kept ∙ long in
      let short = in_seconds_wraps n (omega arith) high in
      let waits : app.transaction_handler.timeout_duration ≡ pos (60 * second) =
        rw (s.wired, same, short) (ground arith) in
      let done =
        handle_timed-Timely app.transaction_handler schedule moments w₁ w₂ body out e late in
      let (m, mem, cause) = is_done-cases (60 * second) moments (rw waits at done) in
      (
        (
          (n + 15) * second - 2 ^ 64,
          rw (s.wired, same) (add_int64-in_seconds n low high),
          omega arith,
        ),
        m,
        mem,
        cause,
      )
