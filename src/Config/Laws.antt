-- ===== src/Config/Laws.antt =====
-- When Load succeeds, and with what.
use backend_infra_assessment.Base.{
  ℕ, ◌≡◌, ◌⊎◌, inl, inr, refl, sym, ◌∙◌, ap, String, Bool, false, List, [], ◌∷◌, Option, none, some,
  ok, str_eq, str_eq_iff, if◌then◌else◌, Bool-cases, Exec, is_ok, ◌>>◌, arith,
}
use backend_infra_assessment.Config.{
  Setting, text, number, ReadError, not_found, unreadable, Viper, Config, defaults, read_config,
  load, required, tolerated,
}

-- The default that SetDefault has given to a key, if any.
abbrev pub default_of : List (String × Setting) → String → Option Setting
default_of [] key = none
default_of ((k, s) ∷ settings) key = if str_eq k key then some s else default_of settings key

-- viper's documented precedence, for keys that neither the environment nor the file gives: the
-- default, and without one the zero value.
pub record IsViper {W : Type 0} (given : W → String → Bool) (v : Viper W) : Type 0 where
  pub string_default :
      (settings : List (String × Setting)) (key t : String) (w : W)
      → given w key ≡ false
      → default_of settings key ≡ some (text t)
      → v.get_string settings key w ≡ t
  pub string_zero :
      (settings : List (String × Setting)) (key : String) (w : W)
      → given w key ≡ false
      → default_of settings key ≡ none
      → v.get_string settings key w ≡ ""
  pub int_default :
      (settings : List (String × Setting)) (key : String) (n : ℕ) (w : W)
      → given w key ≡ false
      → default_of settings key ≡ some (number n)
      → v.get_int settings key w ≡ n

module _ {W : Type 0} (v : Viper W) where
  required_ok :
      (c cfg : Config) (w : W)
      → (required v c w).0 ≡ ok cfg
      → (¬ (cfg.jwt.secret ≡ "")) × (cfg ≡ c) × ((required v c w).1 ≡ w)
  required_ok c cfg w h = elim (Bool-cases (str_eq c.jwt.secret "")) [
    | inl e ↦ cc (rw e at h)
    | inr e ↦
        let same : c ≡ cfg = cc (rw e at h) in
        (
          λ k.
              ground
                (arith, e, str_eq_iff c.jwt.secret "", ap (λ (x : Config). x.jwt.secret) same, k),
          sym same,
          rw e refl,
        )
  ]

  -- What Load does after ReadInConfig.
  abbrev after_read : Option ReadError → Exec W String Config
  after_read failed = tolerated v failed >> λ w. required v (read_config v w) w

  after_read_ok :
      (failed : Option ReadError) (cfg : Config) (w : W)
      → (after_read failed w).0 ≡ ok cfg
      → (¬ (cfg.jwt.secret ≡ ""))
        × (cfg ≡ read_config v w)
        × ((after_read failed w).1 ≡ w)
        × ((failed ≡ none) ⊎ (failed ≡ some not_found))
  after_read_ok none cfg w h =
      let (secret, same, world) = required_ok (read_config v w) cfg w h in
      (secret, same, world, inl refl)
  after_read_ok (some not_found) cfg w h =
      let (secret, same, world) = required_ok (read_config v w) cfg w h in
      (secret, same, world, inr refl)
  after_read_ok (some (unreadable e)) cfg w h = cc h

  -- An empty secret.
  after_read_err :
      (failed : Option ReadError) (w : W)
      → (read_config v w).jwt.secret ≡ ""
      → is_ok (after_read failed w).0 ≡ false
  after_read_err none w h = rw h refl
  after_read_err (some not_found) w h = rw h refl
  after_read_err (some (unreadable e)) w h = refl

  -- Load succeeds only with a secret, and then returns what viper holds after the file has been read,
  -- where only a missing file is passed over.
  pub load-ok :
      (cfg : Config) (w : W)
      → (load v w).0 ≡ ok cfg
      → (¬ (cfg.jwt.secret ≡ ""))
        × (cfg ≡ read_config v (v.read_in_config w).1)
        × ((load v w).1 ≡ (v.read_in_config w).1)
        × (((v.read_in_config w).0 ≡ none) ⊎ ((v.read_in_config w).0 ≡ some not_found))
  unfolding load
  load-ok cfg w h = after_read_ok (v.read_in_config w).0 cfg (v.read_in_config w).1 h

  -- Without a JWT_SECRET in the environment or the file, Load fails.
  pub load-needs_secret :
      (given : W → String → Bool) (w : W)
      → IsViper given v
      → given (v.read_in_config w).1 "JWT_SECRET" ≡ false
      → is_ok (load v w).0 ≡ false
  unfolding load defaults
  load-needs_secret given w b h =
      after_read_err (v.read_in_config w).0 (v.read_in_config w).1
        (b.string_zero defaults "JWT_SECRET" (v.read_in_config w).1 h refl)

  -- Where neither the environment nor the file says otherwise, an address is locked out after five
  -- failures.
  pub load-lockout :
      (given : W → String → Bool) (cfg : Config) (w : W)
      → IsViper given v
      → given (v.read_in_config w).1 "BRUTE_FORCE_MAX_ATTEMPTS" ≡ false
      → (load v w).0 ≡ ok cfg
      → cfg.security.brute_force_max_attempts ≡ 5
  unfolding read_config defaults
  load-lockout given cfg w b h k =
      let (_, same, _, _) = load-ok cfg w k in
      ap (λ (c : Config). c.security.brute_force_max_attempts) same
      ∙ b.int_default defaults "BRUTE_FORCE_MAX_ATTEMPTS" 5 (v.read_in_config w).1 h refl
