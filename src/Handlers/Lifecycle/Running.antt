-- ===== src/Handlers/Lifecycle/Running.antt =====
-- The life of the transactions, as long as all clients of Redis are programs like this one.
use poselink_api_middleware.Common.{ℕ, inl, inr, sym, subst, String}
use poselink_api_middleware.Models.{Transaction}
use poselink_api_middleware.Redis.{IsLawful, IsFair}
use poselink_api_middleware.Store.RedisStore.{CodecIsLawful, RedisTransactionStore, load}
use poselink_api_middleware.Store.RedisStore.Conflicts.{
  Conflicts, not_yet, once_more, attempt_update-conflict,
}
use poselink_api_middleware.Store.RedisStore.Updating.{before_write}
use poselink_api_middleware.Handlers.Lifecycle.{Reach, later}
use poselink_api_middleware.Handlers.Lifecycle.Writes.{
  Write, request, response, timeout, begin, Moment, at_once, within, Write-Step,
}

module _ {W : Type 0} (s : RedisTransactionStore W) where
  -- What Redis holds in a world is the work of handlers and expiries.
  abbrev pub IsReached : W → Type 0
  IsReached w = Reach (load s w)

  -- After these acts, what Redis holds is still the work of handlers and expiries, if it was before.
  abbrev pub IsFellow : (W → W) → Type 0
  IsFellow acts = (w : W) → IsReached w → IsReached (acts w)

  -- The acts around the handling of a response are those of fellows; the other writes have none.
  abbrev pub IsAmongFellows : {w w' : W} → Write s w w' → Type 0
  IsAmongFellows (request made req done) = Unit {0}
  IsAmongFellows (response acts channels r done) = IsFellow acts
  IsAmongFellows (timeout trx_id done) = Unit {0}

module _ {W : Type 0} (s : RedisTransactionStore W) (L : IsLawful s.client)
    (C : CodecIsLawful s.json) (F : IsFair L s.after_watch) (G : IsFair L s.before_exec)
    (after_watch-IsFellow : (i : ℕ) → IsFellow s (s.after_watch i))
    (before_exec-IsFellow : (i : ℕ) → IsFellow s (s.before_exec i)) where
  before_write-IsReached : (i : ℕ) (w : W) → IsReached s w → IsReached s (before_write s i w)
  before_write-IsReached i w r =
      before_exec-IsFellow i (s.after_watch i w) (after_watch-IsFellow i w r)

  Conflicts-IsReached :
      {trx_id : String} {f : Transaction → Transaction} {w w' : W} {n : ℕ}
      → Conflicts s trx_id f w n w'
      → IsReached s w
      → IsReached s w'
  Conflicts-IsReached not_yet r = r
  Conflicts-IsReached {trx_id = trx_id} {f = f} (once_more {n} {w'} c conflict) r =
      elim (attempt_update-conflict s L trx_id f n w' conflict) [
        | inl e ↦ subst (IsReached s) (sym e) (Conflicts-IsReached c r)
        | inr e ↦
            subst (IsReached s) (sym e) (before_write-IsReached n w' (Conflicts-IsReached c r))
      ]

  Moment-IsReached : {w mid : W} → Moment s w mid → IsReached s w → IsReached s mid
  Moment-IsReached at_once r = r
  Moment-IsReached (within trx_id f i w₁ c) r =
      before_write-IsReached i w₁ (Conflicts-IsReached c r)

  begin-IsReached :
      {w w' : W} (write : Write s w w')
      → IsAmongFellows s write
      → IsReached s w
      → IsReached s (begin s write)
  begin-IsReached (request made req done) fellows r = r
  begin-IsReached {w} (response acts channels q done) fellows r = fellows w r
  begin-IsReached (timeout trx_id done) fellows r = r

  -- The invariant holds of Redis itself. On a lawful and fair Redis, what it holds stays the work of requests,
  -- responses, timeouts and expiries with every write of a handler that succeeds, as long as the acts of the
  -- other clients, around the handling of a response and within an update, keep it so too.
  pub Write-IsReached :
      {w w' : W} (write : Write s w w') → IsAmongFellows s write → IsReached s w → IsReached s w'
  Write-IsReached {w} write fellows r =
      let (mid, moment, step) = Write-Step s L C F G write in
      later (Moment-IsReached moment (begin-IsReached write fellows r)) step
