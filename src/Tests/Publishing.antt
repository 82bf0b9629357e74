-- ===== src/Tests/Publishing.antt =====
-- Publishing with an Ably that fails at first.
use poselink_api_middleware.Common.{ℕ, suc, ◌+◌, ◌≡◌, refl, none, some, ok, err, ltb, if◌then◌else◌}
use poselink_api_middleware.Ably.Publishing.{RestClient, publish_payment_request}
use poselink_api_middleware.Ably.Publishing.Laws.{not_yet, once_more, publish_payment_request-fails}

-- The world is the number of messages so far and the milliseconds slept; the first `failures` messages fail.
abbrev ably : ℕ → RestClient (ℕ × ℕ)
ably failures = record {
  publish = λ w channel event payload.
      ((suc (w.0), w.1), if ltb (w.0) failures then some "no route" else none);
  marshal = λ fields. ok "{}";
  sleep = λ d w. (w.0, w.1 + d);
}

publish_payment_request-fails_example :
    publish_payment_request (ably 9) (0, 0) "SN1" "tok" "T1"
    ≡ ((4, 700), err "failed to publish payment request after 3 retries: no route")
publish_payment_request-fails_example =
    publish_payment_request-fails (ably 9) (0, 0) "SN1" "tok" "T1" "{}" (4, 700) "no route" refl
      (once_more "no route"
        (once_more "no route" (once_more "no route" (once_more "no route" not_yet refl) refl) refl)
        refl)
