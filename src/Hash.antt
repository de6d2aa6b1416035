-- ===== src/Hash.antt =====
-- pkg/hash/hash.go: passwords by bcrypt, refresh tokens by SHA-256. The algorithms are the
-- platform's.
use backend_infra_assessment.Base.{String, Option, Result, ok, err}
use backend_infra_assessment.Domain.{Fallible}
use backend_infra_assessment.Domain.Errors.{Error, external}
use backend_infra_assessment.Database.{Platform}

-- An error of a library that the code passes on.
abbrev pub library : {A : Type 0} → Result String A → Result Error A
library (ok a) = ok a
library (err s) = err (external s)

module _ {W : Type 0} (p : Platform W) where
  abbrev pub hash_password : String → Fallible W String
  hash_password password w =
      (library (p.generate_from_password password w).0, (p.generate_from_password password w).1)

  -- nil, which means that the password matches, is `none`.
  abbrev pub check_password : String → String → Option String
  check_password hash password = p.compare_hash_and_password hash password

  abbrev pub sha256_hex : String → String
  sha256_hex s = let sum = p.sum256 s in p.encode_to_string sum
