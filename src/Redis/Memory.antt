-- ===== src/Redis/Memory.antt =====
-- A server in memory, to run the model on concrete inputs and to show that `Redis.IsLawful` can hold.
use poselink_api_middleware.Common.{
  ℕ, zero, suc, ◌≤◌, ◌+◌, ◌*◌, ◌-◌, ◌/◌, ◌^◌, ◌≡◌, refl, String, Option, none, some, Bool, true,
  List, [], ◌∷◌, Result, ok, err, str_eq, eq_iff, ltb, ◌==◌, if◌then◌else◌, arith,
}
use poselink_api_middleware.Common.Int.{ℤ, pos, negsuc}
use poselink_api_middleware.Redis.{
  Redis, RedisError, nil_reply, tx_failed, failed, reply, IsLawful, IsFair, IsResponsive,
}

-- A value and the time at which it expires, if it does.
pub record Entry : Type 0 where
  pub value : String
  pub deadline : Option ℕ

-- Time in nanoseconds; `writes` counts all writes.
pub record Server : Type 0 where
  pub entries : List (String × Entry)
  pub time : ℕ
  pub writes : ℕ
  pub down : Option String

lookup : String → List (String × Entry) → Option Entry
lookup k [] = none
lookup k ((j, e) ∷ m) = if str_eq k j then some e else lookup k m

erase : String → List (String × Entry) → List (String × Entry)
erase k [] = []
erase k ((j, e) ∷ m) = if str_eq k j then erase k m else (j, e) ∷ erase k m

abbrev is_live : ℕ → Option ℕ → Bool
is_live time none = true
is_live time (some deadline) = ltb time deadline

live : ℕ → Option Entry → Option String
live time none = none
live time (some e) = if is_live time e.deadline then some e.value else none

content : Server → String → Option String
unfolding lookup live
content s k = live s.time (lookup k s.entries)

-- A duration of 0 sets no deadline.
abbrev deadline_after : ℕ → ℕ → Option ℕ
deadline_after time d = if d == 0 then none else some (time + d)

abbrev command : Server → List (String × Entry) → Server × Option RedisError
command s entries = elim s.down [
  | some e ↦ (s, some (failed e))
  | none ↦ (record s { entries = entries; writes = s.writes + 1 }, none)
]

put : Server → String → String → ℕ → Server × Option RedisError
put s k v d = command s ((k, record { value = v; deadline = deadline_after s.time d }) ∷ s.entries)

abbrev deadline_of : Option Entry → Option ℕ
deadline_of none = none
deadline_of (some e) = e.deadline

abbrev remaining : ℕ → Option String → Option ℕ → ℤ
remaining time none deadline = negsuc 1
remaining time (some v) none = negsuc 0
remaining time (some v) (some deadline) = pos ((deadline - time) / 10 ^ 9 * 10 ^ 9)

abbrev expire_at : Server → String → Option String → ℤ → List (String × Entry)
expire_at s k none d = s.entries
expire_at s k (some v) (pos n) = (k, record { value = v; deadline = some (s.time + n) }) ∷ s.entries
expire_at s k (some v) (negsuc n) = erase k s.entries

abbrev unless_down {ℓ} : {A : Type ℓ} → Server → A → Result RedisError A
unless_down s a = elim s.down [ some e ↦ err (failed e) | none ↦ ok a ]

error_text : RedisError → String
error_text nil_reply = "redis: nil"
error_text tx_failed = "redis: transaction failed"
error_text (failed e) = e

ping : Server → Option RedisError
ping s = elim s.down [ some e ↦ some (failed e) | none ↦ none ]

exists : Server → String → ℕ
exists s k = elim (content s k) [ none ↦ 0 | some v ↦ 1 ]

exec_set : Server → ℕ → String → String → ℕ → Server × Option RedisError
unfolding put
exec_set s token k v d = if s.writes == token then put s k v d else (s, some tx_failed)

unfoldable pub memory : Redis Server
unfolding content put erase exec_set error_text ping exists
memory = record {
  error_text = error_text;
  ping = ping;
  get = λ s k. reply s.down (content s k);
  set = put;
  del = λ s k. command s (erase k s.entries);
  exists = λ s k. unless_down s (exists s k);
  ttl = λ s k. unless_down s (remaining s.time (content s k) (deadline_of (lookup k s.entries)));
  expire = λ s k d. command s (expire_at s k (content s k) d);
  watch = λ s k. unless_down s s.writes;
  exec_set = exec_set;
}

pub empty_server : ℕ → Server
empty_server time = record { entries = []; time = time; writes = 0; down = none }

lookup-erase :
    (k j : String) (m : List (String × Entry))
    → lookup j (erase k m) ≡ (if str_eq j k then none else lookup j m)
unfolding lookup erase
lookup-erase k j [] = ground arith
lookup-erase k j ((i, e) ∷ m) =
    ground (arith, eq_iff k i, eq_iff j i, eq_iff j k, lookup-erase k j m)

put-content :
    (s : Server) (k v : String) (d : ℕ) (j : String)
    → (put s k v d).1 ≡ none
    → content (put s k v d).0 j ≡ (if str_eq j k then some v else content s j)
unfolding put content
put-content s k v d j h = ground arith

pub memory-IsLawful : IsLawful memory
unfolding memory
memory-IsLawful = record {
  content = content;
  version = λ s k. s.writes;
  down = λ s. s.down;
  get-reply = λ s k. refl;
  set-content = put-content;
  set-down = λ s k v d h. (ground arith, ground arith);
  del-content = λ s k j h. ground (arith, lookup-erase k j s.entries);
  del-down = λ s k h. (ground arith, ground arith);
  watch-version = λ s k token h. ground arith;
  exec_set-content = λ s token k v d j h. ground (arith, put-content s k v d j);
  exec_set-down = λ s token k v d h. (ground arith, ground arith);
  exec_set-version = λ s token k v d h. ground arith;
  exec_set-tx_failed = λ s token k v d h. ground arith;
}

-- Other clients that do nothing.
abbrev pub quiet : ℕ → Server → Server
quiet i s = s

-- Another client that writes a key during the first attempt of an update.
abbrev pub busy : ℕ → Server → Server
busy zero s = record s {
  entries = ("other", record { value = "x"; deadline = none }) ∷ s.entries;
  writes = s.writes + 1;
}
busy (suc i) s = s

pub quiet-IsFair : IsFair memory-IsLawful quiet
unfolding memory-IsLawful
quiet-IsFair = record { version_grows = λ i w k. omega arith; content_same = λ i w k e. refl }

busy-version_grows : (i : ℕ) (s : Server) → s.writes ≤ (busy i s).writes
busy-version_grows zero s = omega arith
busy-version_grows (suc i) s = omega arith

busy-content_same :
    (i : ℕ) (s : Server) (k : String)
    → s.writes ≡ (busy i s).writes
    → content s k ≡ content (busy i s) k
busy-content_same zero s k e = absurd (omega arith)
busy-content_same (suc i) s k e = refl

pub busy-IsFair : IsFair memory-IsLawful busy
unfolding memory-IsLawful
busy-IsFair = record {
  version_grows = λ i s k. busy-version_grows i s;
  content_same = busy-content_same;
}

pub memory-IsResponsive : IsResponsive memory-IsLawful
unfolding memory memory-IsLawful
memory-IsResponsive = record {
  watch-up = λ s k up. (s.writes, ground (arith, up));
  exec_set-up = λ s token k v d up same. ground (arith, up, same);
}

pub down-memory : (s : Server) → memory-IsLawful.down s ≡ s.down
unfolding memory-IsLawful
down-memory s = refl

pub content-memory :
    (s : Server) (k v : String) → memory.get s k ≡ ok v → memory-IsLawful.content s k ≡ some v
unfolding memory memory-IsLawful
content-memory s k v e = ground (arith, e)

pub version-memory : (s : Server) (k : String) → memory-IsLawful.version s k ≡ s.writes
unfolding memory-IsLawful
version-memory s k = refl
