-- ===== src/Handlers/Transaction/Timing.antt =====
-- The times of the polling loop of `HandleTransaction`: the context with its timeout, and the ticker.
use mathlib.Core.List.{Memᴰ}
use mathlib.Core.List.Memᴰ.{head, tail}
use poselink_api_middleware.Common.{
  ℕ, ◌/◌, ◌*◌, ◌^◌, ◌≤◌, ◌≡◌, ◌⊎◌, ◌∙◌, refl, sym, ap, String, Bool, true, false, ◌||◌, List, [],
  ◌∷◌, Result, inl, inr, Bool-cases, ltb, arith,
}
use poselink_api_middleware.Common.Int.{ℤ, pos, leb_ℤ}
use poselink_api_middleware.Models.{PaymentRequest}
use poselink_api_middleware.Http.{ResponseWriter}
use poselink_api_middleware.Handlers.Transaction.{
  TransactionHandler, Turn, ticked, ended, Schedule, Outcome, handle_transaction,
}
use poselink_api_middleware.Handlers.Transaction.Polling.{HasEnd}

-- A moment of the loop, in nanoseconds since the context and the ticker were made; what the rest of the world
-- does up to then; whether the client has gone; and which case `select` takes if both are ready.
pub record Round (W : Type 0) : Type 0 where
  pub time : ℕ
  pub acts : W → W
  pub gone : Bool
  pub prefers_done : Bool

-- `ctx.Done()`: the timeout has passed or the context of the request is done.
abbrev pub is_done : {W : Type 0} → ℤ → Round W → Bool
is_done timeout m = m.gone || leb_ℤ timeout (pos m.time)

-- The ticker has fired 500 ms after its making, and each 500 ms from then on.
abbrev pub fired : {W : Type 0} → Round W → ℕ
fired m = m.time / (5 * 10 ^ 8)

-- `select`, by whether the ticker's channel holds a tick, whether the context is done, and the choice if both
-- are so. Without a ready case the loop is blocked.
select : {W : Type 0} → Bool → Bool → Bool → (W → W) → List (Turn W) → List (Turn W) → List (Turn W)
select true true true acts blocked ticking = ended acts ∷ []
select true true false acts blocked ticking = ticked acts ∷ ticking
select true false prefers_done acts blocked ticking = ticked acts ∷ ticking
select false true prefers_done acts blocked ticking = ended acts ∷ []
select false false prefers_done acts blocked ticking = blocked

-- The rounds of the loop. The ticker's channel holds a tick when the ticker has fired since the last receipt,
-- at which it had fired `seen` times; `before` is what the world has done since the last round.
unfoldable pub turns_of : {W : Type 0} → ℤ → ℕ → (W → W) → List (Round W) → List (Turn W)
unfolding select
turns_of timeout seen before [] = []
turns_of timeout seen before (m ∷ moments) =
    select (ltb seen (fired m)) (is_done timeout m) m.prefers_done (λ w. m.acts (before w))
      (turns_of timeout seen (λ w. m.acts (before w)) moments)
      (turns_of timeout (fired m) (λ w. w) moments)

-- `HandleTransaction` with the rounds that its timeout and its ticker make of the moments.
unfoldable pub handle_timed :
    {W : Type 0}
    → TransactionHandler W
    → Schedule W
    → List (Round W)
    → W
    → ResponseWriter
    → Result String PaymentRequest
    → Outcome W
handle_timed h schedule moments w out body =
    handle_transaction h
      (record schedule { turns = turns_of h.timeout_duration 0 (λ w. w) moments }) w out body

-- One of the moments finds the context done.
abbrev pub IsDoneAt : {W : Type 0} → ℤ → List (Round W) → Type 0
IsDoneAt {W} timeout moments = (m : Round W) × Memᴰ m moments × (is_done timeout m ≡ true)

select-HasEnd :
    {W : Type 0} (fires prefers_done : Bool) (acts : W → W) (blocked ticking : List (Turn W))
    → HasEnd (select fires false prefers_done acts blocked ticking)
    → HasEnd blocked ⊎ HasEnd ticking
unfolding select
select-HasEnd true prefers_done acts blocked ticking ends = inr ends
select-HasEnd false prefers_done acts blocked ticking ends = inl ends

HasEnd-select :
    {W : Type 0} (fires done prefers_done : Bool) (acts : W → W) (blocked ticking : List (Turn W))
    → HasEnd blocked
    → HasEnd ticking
    → HasEnd (select fires done prefers_done acts blocked ticking)
unfolding select
HasEnd-select true true true acts blocked ticking b t = tt
HasEnd-select true true false acts blocked ticking b t = t
HasEnd-select true false prefers_done acts blocked ticking b t = t
HasEnd-select false true prefers_done acts blocked ticking b t = tt
HasEnd-select false false prefers_done acts blocked ticking b t = b

taken_ends :
    {W : Type 0} (fires : Bool) (acts : W → W) (blocked ticking : List (Turn W))
    → HasEnd (select fires true true acts blocked ticking)
unfolding select
taken_ends true acts blocked ticking = tt
taken_ends false acts blocked ticking = tt

further :
    {W : Type 0} (timeout : ℤ) (m : Round W) (moments : List (Round W))
    → IsDoneAt timeout moments
    → IsDoneAt timeout (m ∷ moments)
further timeout m moments (n, mem, done) = (n, tail mem, done)

-- The loop finds the context done only at a moment at which it is.
pub turns_of-IsDoneAt :
    {W : Type 0} (timeout : ℤ) (seen : ℕ) (before : W → W) (moments : List (Round W))
    → HasEnd (turns_of timeout seen before moments)
    → IsDoneAt timeout moments
unfolding turns_of
turns_of-IsDoneAt timeout seen before [] ends = absurd ends
turns_of-IsDoneAt timeout seen before (m ∷ moments) ends = elim (Bool-cases (is_done timeout m)) [
  | inl done ↦ (m, head refl, done)
  | inr not_done ↦
      further timeout m moments
        (elim (select-HasEnd (ltb seen (fired m)) m.prefers_done (λ w. m.acts (before w)) _ _
          (rw not_done at ends)) [
            | inl b ↦ turns_of-IsDoneAt timeout seen (λ w. m.acts (before w)) moments b
            | inr t ↦ turns_of-IsDoneAt timeout (fired m) (λ w. w) moments t
          ])
]

-- A moment at which the context is done, and which takes that case, ends the loop.
pub turns_of-HasEnd :
    {W : Type 0} (timeout : ℤ) (seen : ℕ) (before : W → W) (moments : List (Round W)) (m : Round W)
    → Memᴰ m moments
    → is_done timeout m ≡ true
    → m.prefers_done ≡ true
    → HasEnd (turns_of timeout seen before moments)
unfolding turns_of
turns_of-HasEnd timeout seen before [] m mem done taken = elim mem [ ]
turns_of-HasEnd timeout seen before (n ∷ moments) m (head e) done taken =
    let done' : is_done timeout n ≡ true = sym (ap (is_done timeout) e) ∙ done in
    let taken' : n.prefers_done ≡ true = sym (ap Round.prefers_done e) ∙ taken in
    rw (done', taken') (taken_ends (ltb seen (fired n)) (λ w. n.acts (before w)) _ _)
turns_of-HasEnd timeout seen before (n ∷ moments) m (tail mem) done taken =
    HasEnd-select (ltb seen (fired n)) (is_done timeout n) n.prefers_done (λ w. n.acts (before w)) _
      _ (turns_of-HasEnd timeout seen (λ w. n.acts (before w)) moments m mem done taken)
      (turns_of-HasEnd timeout (fired n) (λ w. w) moments m mem done taken)

-- At a moment that finds the context done, the client has gone or the timeout has passed.
pub is_done-cases :
    {W : Type 0} (t : ℕ) (moments : List (Round W))
    → IsDoneAt (pos t) moments
    → (m : Round W) × Memᴰ m moments × ((m.gone ≡ true) ⊎ (t ≤ m.time))
is_done-cases t moments (m, mem, done) = elim (Bool-cases m.gone) [
  | inl gone ↦ (m, mem, inl gone)
  | inr there ↦ (m, mem, inr (ground (arith, there, done)))
]
