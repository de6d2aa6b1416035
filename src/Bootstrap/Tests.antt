-- ===== src/Bootstrap/Tests.antt =====
-- Two starts of the program on an empty database in memory.
use backend_infra_assessment.Base.{◌≡◌, refl, inl, ok, str_eq_iff, String, Unique, arith}
use backend_infra_assessment.Repository.{user_repository}
use backend_infra_assessment.Tests.Memory.{
  Memory, db_of, clock_of, memory_gorm, memory_platform, memory_platform-IsPlatform, first_of_rows,
}
use backend_infra_assessment.Tests.Service.{service, service-IsBacked, start}
use backend_infra_assessment.Bootstrap.{
  created, already_admin, promote, create_admin, ensure_found, ensure_admin,
}
use backend_infra_assessment.Bootstrap.Laws.{HasAdmin, ensure_admin-ok, ensure_admin-again}

starting : Unit {0}
unfolding promote create_admin ensure_found ensure_admin user_repository memory_gorm first_of_rows
    memory_platform
starting = tt

abbrev started : Memory
started = (ensure_admin memory_platform service.users "root@example.com" "root" start).1

first_start :
    (ensure_admin memory_platform service.users "root@example.com" "root" start).0 ≡ ok created
unfolding starting
first_start = refl

second_start :
    (ensure_admin memory_platform service.users "root@example.com" "root" started).0
    ≡ ok already_admin
unfolding starting
second_start = refl

abbrev address : String
address = "root@example.com"

abbrev secret : String
secret = "root"

named : (address ≡ "") → ⊥
named e = ground (arith, e, str_eq_iff address "")

guarded : (secret ≡ "") → ⊥
guarded e = ground (arith, e, str_eq_iff secret "")

ensure_admin-ok_example : HasAdmin "root@example.com" (db_of started)
ensure_admin-ok_example =
    ensure_admin-ok db_of clock_of memory_platform service.users "root@example.com" "root" created
      start memory_platform-IsPlatform service-IsBacked.users named guarded first_start

one_user : Unique (λ u. u.email) (db_of started).users
unfolding starting
one_user = (tt, tt)

ensure_admin-again_example :
    (already_admin ≡ already_admin)
    × (db_of (ensure_admin memory_platform service.users "root@example.com" "root" started).1
        ≡ db_of started)
unfolding starting
ensure_admin-again_example =
    ensure_admin-again db_of clock_of memory_platform service.users "root@example.com" "root"
      already_admin started service-IsBacked.users one_user (inl (refl, refl)) named guarded
      second_start
