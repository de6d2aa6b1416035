-- ===== src/Repository/Correct/Ids.antt =====
-- The id of a new row.
use backend_infra_assessment.Base.{
  ◌≤◌, ◌≡◌, ◌⊎◌, true, Result, ok, err, refl, arith, ◌==◌, Bool-cases, inl, inr,
}
use backend_infra_assessment.Domain.{Uuid, uuid_nil, Time}
use backend_infra_assessment.Domain.{Sentinel, Error}
use backend_infra_assessment.Domain.Errors.{domain, is_infrastructure}
use backend_infra_assessment.Database.{GormError, record_not_found, failure, Platform}
use backend_infra_assessment.Database.Contract.{Db, IsPlatform}
use backend_infra_assessment.Repository.{new_id, returned, found_or}

-- The id that an insert uses, and the world in which the insert is made.
module _ {W : Type 0} (view : W → Db) (clock : W → Time) (p : Platform W)
    (ip : IsPlatform view clock p) where
  pub new_id_lem :
      (id : Uuid) (w : W)
      → (n : Uuid) × ((new_id p id w).0 ≡ ok n)
        × (view (new_id p id w).1 ≡ view w)
        × (clock w ≤ clock (new_id p id w).1)
  unfolding new_id
  new_id_lem id w = elim (Bool-cases (id == uuid_nil)) [
    | inl e ↦ rw e ((p.uuid_new w).0, refl, ip.uuid_view w, ip.uuid_clock w)
    | inr e ↦ rw e (id, refl, refl, omega arith)
  ]

-- The errors that the repositories return.
pub statement-error :
    {A : Type 0} (r : Result GormError A) (e : Error)
    → returned r ≡ err e
    → is_infrastructure e ≡ true
statement-error (ok a) e h = cc
statement-error (err record_not_found) e h = ground arith
statement-error (err (failure s)) e h = ground arith

pub lookup-error :
    {A : Type 0} (missing : Sentinel) (r : Result GormError A) (e : Error)
    → found_or missing r ≡ err e
    → (e ≡ domain missing) ⊎ (is_infrastructure e ≡ true)
lookup-error missing (ok a) e h = cc
lookup-error missing (err record_not_found) e h = inl (ground arith)
lookup-error missing (err (failure s)) e h = inr (ground arith)
