-- ===== src/Tests/Connections.antt =====
-- Connecting to a server that comes up late.
use poselink_api_middleware.Common.{ℕ, suc, ◌+◌, ◌≡◌, refl, none, some, err, ltb, if◌then◌else◌}
use poselink_api_middleware.Store.Connecting.{Connection, new_redis_client}
use poselink_api_middleware.Store.Connecting.Laws.{not_yet, once_more, new_redis_client-fails}

-- The world is the number of PINGs so far and the seconds slept; the first `failures` fail. Closing sets the
-- number to 99.
abbrev connection : ℕ → Connection (ℕ × ℕ)
connection failures = record {
  ping = λ w. ((suc (w.0), w.1), if ltb (w.0) failures then some "refused" else none);
  sleep = λ d w. (w.0, w.1 + d);
  close = λ w. (99, w.1);
}

new_redis_client-fails_example :
    new_redis_client (connection 9) (0, 0)
    ≡ ((99, 15), err "failed to connect to Redis after 5 attempts: refused")
new_redis_client-fails_example =
    new_redis_client-fails (connection 9) (0, 0) (5, 15) "refused"
      (once_more "refused"
        (once_more "refused"
          (once_more "refused" (once_more "refused" (once_more "refused" not_yet refl) refl) refl)
          refl)
        refl)
