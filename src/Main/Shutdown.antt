-- ===== src/Main/Shutdown.antt =====
-- The end of main.go: the server runs until it fails or a signal comes.
use poselink_api_middleware.Common.{ℕ, ◌*◌, ◌≡◌, refl, ap, String, Option, Result, ok, err}
use poselink_api_middleware.Common.Durations.{second}
use poselink_api_middleware.Main.{Host, Fatal, App, main}

-- `server.Shutdown` with a context of that many nanoseconds, and the `Close` of both clients.
pub record Closing (W : Type 0) : Type 0 where
  pub shutdown : W → ℕ → W × Option String
  pub close_ably : W → W
  pub close_redis : W → W

-- Why the server stops: `ListenAndServe` fails, or SIGINT or SIGTERM arrives.
pub data Stop : Type 0 where
  listen_failed : String → Stop
  signalled : Stop

-- A fatal log line, at the start or from the server's goroutine, or the end of `main` with the error of
-- `Shutdown`, if any.
pub data Exit : Type 0 where
  not_started : Fatal → Exit
  not_listening : String → Exit
  exited : Option String → Exit

abbrev pub shutdown_timeout : ℕ
shutdown_timeout = 30 * second

module _ {W : Type 0} (host : Host W) (c : Closing W) where
  -- The deferred calls, the last first.
  abbrev exiting : W × Option String → W × Exit
  exiting (w, forced) = (c.close_redis (c.close_ably w), exited forced)

  -- A fatal log line ends the process without the deferred calls.
  abbrev stopping : Stop → W → W × Exit
  stopping (listen_failed e) w = (w, not_listening e)
  stopping signalled w = exiting (c.shutdown w shutdown_timeout)

  abbrev serving : (W → W) → Stop → W × Result Fatal (App W) → W × Exit
  serving acts stop (w, err e) = (w, not_started e)
  serving acts stop (w, ok app) = stopping stop (acts w)

  -- The whole of `main`; `acts` is all that happens while the server runs.
  unfoldable pub program : (W → W) → Stop → W → W × Exit
  program acts stop w = serving acts stop (main host w)

  -- A run that gets to the end of `main` has started, has been stopped by a signal, and leaves both clients closed,
  -- Ably before Redis, after the server was shut down; an error of the shutdown does not change that.
  pub program-exited :
      (acts : W → W) (stop : Stop) (w : W) (forced : Option String)
      → (program acts stop w).1 ≡ exited forced
      → (w₁ : W) × (app : App W) × (main host w ≡ (w₁, ok app))
        × (stop ≡ signalled)
        × ((c.shutdown (acts w₁) shutdown_timeout).1 ≡ forced)
        × ((program acts stop w).0
            ≡ c.close_redis (c.close_ably (c.shutdown (acts w₁) shutdown_timeout).0))
  unfolding program
  program-exited acts stop w forced h = by_start (main host w) refl stop h
    where
      by_start :
          (r : W × Result Fatal (App W))
          → main host w ≡ r
          → (stop : Stop) → (serving acts stop r).1 ≡ exited forced
          → (w₁ : W) × (app : App W) × (main host w ≡ (w₁, ok app))
            × (stop ≡ signalled)
            × ((c.shutdown (acts w₁) shutdown_timeout).1 ≡ forced)
            × ((serving acts stop (main host w)).0
                ≡ c.close_redis (c.close_ably (c.shutdown (acts w₁) shutdown_timeout).0))
      by_start (w₁, err e) e' stop h = cc
      by_start (w₁, ok app) e' (listen_failed e) h = cc
      by_start (w₁, ok app) e' signalled h =
          (w₁, app, e', refl, cc, ap (λ r. (serving acts signalled r).0) e')
