-- ===== src/Database.antt =====
-- What the code uses of Gorm, one interface for each table, and of the Go libraries: parameters of
-- the whole model. The children state the documented behaviour that the proofs rely on.
pub mod Contract
use backend_infra_assessment.Base.{ℕ, String, Bool, Option, List, Exec, Result}
use backend_infra_assessment.Domain.{Uuid, Time}

-- gorm.ErrRecordNotFound, or any other error of the driver, by its text.
pub data GormError : Type 0 where
  record_not_found : GormError
  failure : String → GormError

-- Gorm on the table of rows of type `R`. A condition of `Where` is a test of a row.
pub record Gorm (W R : Type 0) : Type 0 where
  -- db.Create(&r): the row comes back as it was stored.
  pub create : R → Exec W GormError R
  -- db.Where(p).First(&r)
  pub first : (R → Bool) → Exec W GormError R
  -- db.Where(p).Order("created_at DESC").Limit(n).Find(&rs); `none` is no limit.
  pub find_latest : (R → Bool) → Option ℕ → Exec W GormError (List R)
  -- db.Model(&R{}).Where(p).Count(&n)
  pub count : (R → Bool) → Exec W GormError ℕ
  -- db.Model(&R{}).Where(p).Update(column, value)
  pub update : (R → Bool) → (R → R) → Exec W GormError Unit

-- The clock, google/uuid, bcrypt, crypto/sha256 with hex, and crypto/rand with base64.
pub record Platform (W : Type 0) : Type 0 where
  pub time_now : W → Time × W
  pub uuid_new : W → Uuid × W
  pub uuid_string : Uuid → String
  pub uuid_parse : String → Option Uuid
  pub generate_from_password : String → Exec W String String
  -- nil is `none`
  pub compare_hash_and_password : String → String → Option String
  -- sha256.Sum256 and hex.EncodeToString; the bytes of a digest are a text here.
  pub sum256 : String → String
  pub encode_to_string : String → String
  pub rand_read : ℕ → Exec W String (List ℕ)
  pub base64_raw_url : List ℕ → String
