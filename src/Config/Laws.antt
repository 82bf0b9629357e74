-- ===== src/Config/Laws.antt =====
-- What a configuration that loads satisfies, and which timeouts wrap around.
use poselink_api_middleware.Common.{
  ℕ, ◌*◌, ◌^◌, ◌<◌, ◌≡◌, ◌≢◌, ◌⊎◌, refl, subst, sym, ◌∙◌, String, Bool, true, List, Result, ok, err,
  arith, str_eq, Bool-cases, Result-cases, inl, inr,
}
use poselink_api_middleware.Common.Int.{ℤ, pos, negsuc, pos_part, ◌≤ℤ◌, to_int64}
use poselink_api_middleware.Common.Durations.{second, in_seconds}
use poselink_api_middleware.Common.Results.{◌>>=◌}
use poselink_api_middleware.Common.Texts.{ne_of_eq-false}
use poselink_api_middleware.Config.Atoi.{atoi, atoi_bounds}
use poselink_api_middleware.Config.{
  Config, ConfigError, is_port, is_positive, is_non_negative, number_setting, load_config, settings,
  timeout_setting, not_positive,
}

-- The ranges that the checks of `LoadConfig` promise. A timeout is a positive number of seconds that was
-- multiplied in 64 bits.
pub record IsValid (c : Config) : Type 0 where
  pub keyed : c.ably_api_key ≢ ""
  pub port : (pos 1 ≤ℤ c.server_port) × (c.server_port ≤ℤ pos 65535)
  pub timeout : (n : ℕ) × (0 < n) × (n < 2 ^ 63) × (c.timeout_duration ≡ to_int64 (n * second))
  pub redis_port : (pos 1 ≤ℤ c.redis_port) × (c.redis_port ≤ℤ pos 65535)
  pub db : pos 0 ≤ℤ c.redis_db
  pub idle : pos 0 ≤ℤ c.redis_min_idle_conns
  pub conns : pos 1 ≤ℤ c.redis_max_conns

>>=-eq-ok :
    {A B : Type 0} (m : Result ConfigError A) (f : A → Result ConfigError B) {b : B}
    → (m >>= f) ≡ ok b
    → (a : A) × (m ≡ ok a) × (f a ≡ ok b)
unfolding ◌>>=◌
>>=-eq-ok (ok a) f h = (a, refl, h)
>>=-eq-ok (err e) f h = absurd (cc)

-- A number that is read is the default, or it was parsed; either way it passes its test, if the default does.
number_setting-passes :
    (name value : String) (default : ℤ) (passes : ℤ → Bool) (complaint : String → ℤ → ConfigError)
    (n : ℤ)
    → passes default ≡ true
    → number_setting name value default passes complaint ≡ ok n
    → (passes n ≡ true) × ((n ≡ default) ⊎ (atoi value ≡ ok n))
unfolding number_setting
number_setting-passes name value default passes complaint n h e =
    elim (Bool-cases (str_eq value "")) [
      | inl empty ↦ (ground (arith, empty), ground (arith, empty))
      | inr given ↦ elim (Result-cases (atoi value)) [
        | inr (m, bad) ↦ absurd (ground (arith, bad, given))
        | inl (k, good) ↦ elim (Bool-cases (passes k)) [
          | inl fine ↦ (ground (arith, good, given, fine), ground (arith, good, given, fine))
          | inr wrong ↦ absurd (ground (arith, good, given, wrong))
        ]
      ]
    ]

-- The timeout in nanoseconds is that of a positive number of seconds.
IsTimeout : ℤ → Type 0
IsTimeout d = (n : ℕ) × (0 < n) × (n < 2 ^ 63) × (d ≡ to_int64 (n * second))

in_seconds-IsTimeout :
    (n : ℤ) → is_positive n ≡ true → pos_part n < 2 ^ 63 → IsTimeout (in_seconds n)
unfolding IsTimeout in_seconds
in_seconds-IsTimeout (pos n) h b = (n, ground arith, b, refl)
in_seconds-IsTimeout (negsuc n) h b = absurd (ground arith)

is_port_bounds : (n : ℤ) → is_port n ≡ true → (pos 1 ≤ℤ n) × (n ≤ℤ pos 65535)
is_port_bounds (pos n) h = (ground arith, ground arith)
is_port_bounds (negsuc n) h = absurd (ground arith)

is_non_negative_bound : (n : ℤ) → is_non_negative n ≡ true → pos 0 ≤ℤ n
is_non_negative_bound n h = ground arith

is_positive_bound : (n : ℤ) → is_positive n ≡ true → pos 1 ≤ℤ n
is_positive_bound (pos n) h = ground arith
is_positive_bound (negsuc n) h = absurd (ground arith)

-- A result that, if it is no error, satisfies a predicate.
data Ensures {A : Type 0} (P : A → Type 0) : Result ConfigError A → Type 0 where
  ensured : {a : A} → P a → Ensures P (ok a)
  excused : {e : ConfigError} → Ensures P (err e)

>>=-Ensures :
    {A B : Type 0} {P : B → Type 0} (m : Result ConfigError A) (f : A → Result ConfigError B)
    → ((a : A) → m ≡ ok a → Ensures P (f a))
    → Ensures P (m >>= f)
unfolding ◌>>=◌
>>=-Ensures (ok a) f h = h a refl
>>=-Ensures (err e) f h = excused

of_Ensures :
    {A : Type 0} {P : A → Type 0} {r : Result ConfigError A}
    → Ensures P r
    → (a : A) → r ≡ ok a
    → P a
of_Ensures {P = P} (ensured p) a e = subst P (cc) p
of_Ensures excused a e = absurd (cc)

module _ (env : String → String)
    (parse_mappings : String → Result String (List (String × String))) where
  timeout_setting-IsTimeout :
      (value : String) (d : ℤ) → timeout_setting env parse_mappings value ≡ ok d → IsTimeout d
  unfolding IsTimeout to_int64
  timeout_setting-IsTimeout value d e = elim (Bool-cases (str_eq value "")) [
    | inl empty ↦ (60, omega arith, omega arith, ground (arith, empty))
    | inr given ↦
        let (n, read, same) =
          >>=-eq-ok (number_setting "TIMEOUT_DURATION" value (pos 60) is_positive not_positive)
            (λ n. ok (in_seconds n)) (rw given at e) in
        let (positive, source) =
          number_setting-passes "TIMEOUT_DURATION" value (pos 60) is_positive not_positive n refl
            read in
        let small : pos_part n < 2 ^ 63 = elim source [
          | inl default ↦ rw default (omega arith)
          | inr parsed ↦ (atoi_bounds value n parsed).0
        ] in
        let (k, above, below, made) = in_seconds-IsTimeout n positive small in
        (k, above, below, sym (ok_inj same) ∙ made)
  ]
    where
      ok_inj : {a b : ℤ} → ◌≡◌ {A = Result ConfigError ℤ} (ok a) (ok b) → a ≡ b
      ok_inj h = cc

  settings-Ensures : (key : String) → key ≢ "" → Ensures IsValid (settings env parse_mappings key)
  unfolding IsTimeout
  settings-Ensures key keyed = >>=-Ensures _ _ λ port e₁. >>=-Ensures _ _ λ timeout e₂.
      >>=-Ensures _ _ λ mappings e₃. >>=-Ensures _ _ λ redis_port e₄. >>=-Ensures _ _ λ db e₅.
        >>=-Ensures _ _ λ min_idle e₆. >>=-Ensures _ _ λ max_conns e₇. ensured (record {
          keyed = keyed;
          port = is_port_bounds port (number_setting-passes _ _ _ _ _ port refl e₁).0;
          timeout = timeout_setting-IsTimeout _ timeout e₂;
          redis_port =
              is_port_bounds redis_port (number_setting-passes _ _ _ _ _ redis_port refl e₄).0;
          db = is_non_negative_bound db (number_setting-passes _ _ _ _ _ db refl e₅).0;
          idle =
              is_non_negative_bound min_idle (number_setting-passes _ _ _ _ _ min_idle refl e₆).0;
          conns = is_positive_bound max_conns (number_setting-passes _ _ _ _ _ max_conns refl e₇).0;
        })

  -- A configuration that loads has an API key, ports from 1 to 65535, a positive number of connections, no
  -- negative number of idle connections or database, and a timeout of a positive number of seconds, multiplied
  -- into nanoseconds in 64 bits.
  pub load_config-IsValid : (c : Config) → load_config env parse_mappings ≡ ok c → IsValid c
  unfolding load_config
  load_config-IsValid c e = elim (Bool-cases (str_eq (env "ABLY_API_KEY") "")) [
    | inl empty ↦ absurd (ground (arith, empty))
    | inr given ↦
        of_Ensures (settings-Ensures (env "ABLY_API_KEY") (ne_of_eq-false _ _ given)) c
          (rw given at e)
  ]
