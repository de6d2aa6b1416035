-- ===== src/Config/Tests.antt =====
-- An environment that gives the secret only, and one that gives nothing.
use backend_infra_assessment.Base.{
  ℕ, ◌≡◌, refl, String, Bool, false, Option, none, some, ok, str_eq, if◌then◌else◌,
}
use backend_infra_assessment.Config.{
  Setting, text, number, not_found, Viper, Config, read_config, load, dsn, defaults, addr,
}
use backend_infra_assessment.Config.Laws.{IsViper, default_of}

abbrev text_or_zero : Option Setting → String
text_or_zero none = ""
text_or_zero (some (text t)) = t
text_or_zero (some (number n)) = ""

abbrev number_or_zero : Option Setting → ℕ
number_or_zero none = 0
number_or_zero (some (text t)) = 0
number_or_zero (some (number n)) = n

-- The world is the text of JWT_SECRET, which no other key is given beside.
abbrev given : String → String → Bool
given w key = if str_eq w "" then false else str_eq key "JWT_SECRET"

abbrev viper : Viper String
viper = record {
  read_in_config = λ w. (some not_found, w);
  get_string = λ settings key w. if given w key then w else text_or_zero (default_of settings key);
  get_int = λ settings key w. number_or_zero (default_of settings key);
  get_duration = λ settings key w. 900000000000;
}

viper-IsViper : IsViper given viper
viper-IsViper = record {
  string_default = λ settings key t w h k. rw (h, k) refl;
  string_zero = λ settings key w h k. rw (h, k) refl;
  int_default = λ settings key n w h k. rw k refl;
}

abbrev loaded : Config
loaded = read_config viper "secret"

load_works : (load viper "secret").0 ≡ ok loaded
unfolding load read_config defaults
load_works = refl

written :
    dsn loaded.db
    ≡ "host=localhost port=5432 user=postgres password=postgres dbname=auth sslmode=disable"
unfolding read_config defaults dsn
written = refl

redis_address : addr loaded.redis ≡ "localhost:6379"
unfolding read_config defaults addr
redis_address = refl
