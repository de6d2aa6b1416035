-- ===== src/Database/Contract.antt =====
-- The documented behaviour of Gorm over PostgreSQL: what each statement does to the rows of its
-- table, whether it succeeds or fails. `view` reads the four tables off the outside world.
use mathlib.Core.List.{Perm}
use backend_infra_assessment.Base.{
  ◌++◌, [], ◌⊎◌, keep, ℕ, ◌≤◌, ◌≡◌, String, Bool, true, false, Option, List, ◌∷◌, ok, err, is_ok,
  All, Has, NewestFirst, none, some, length, ◌<◌, count, change, ◌==◌, str_eq, if◌then◌else◌,
}
use backend_infra_assessment.Domain.{
  Time, Role, role_viewer, User, RefreshToken, LoginAttempt, AuditEvent,
}
use backend_infra_assessment.Database.{record_not_found, Gorm, Platform}

-- The tables of migrations/.
pub record Db : Type 0 where
  pub users : List User
  pub tokens : List RefreshToken
  pub attempts : List LoginAttempt
  pub audits : List AuditEvent

-- One table of the database: where its rows stand, its unique columns, and what Gorm and the
-- column defaults fill in on an insert at a given time.
pub record Table (R K : Type 0) : Type 0 where
  pub rows : Db → List R
  pub replace : List R → Db → Db
  pub key : R → K
  pub created : R → Time
  pub filled : Time → R → R
  -- What an update fills in besides its column.
  pub touched : Time → R → R

-- A field that Gorm fills with the time of the insert when it is zero.
abbrev filled_at : Time → Time → Time
filled_at now t = if t == 0 then now else t

-- The column of the role has a default, which Gorm uses in place of the empty text.
abbrev pub stored_role : Role → Role
stored_role role = if str_eq role "" then role_viewer else role

abbrev pub users_table : Table User String
users_table = record {
  rows = λ d. d.users;
  replace = λ rs d. record d { users = rs };
  key = λ u. u.email;
  created = λ u. u.created_at;
  filled = λ now u. record u {
    role = stored_role u.role;
    created_at = filled_at now u.created_at;
    updated_at = filled_at now u.updated_at;
  };
  touched = λ now u. record u { updated_at = now };
}

abbrev pub tokens_table : Table RefreshToken String
tokens_table = record {
  rows = λ d. d.tokens;
  replace = λ rs d. record d { tokens = rs };
  key = λ t. t.token_hash;
  created = λ t. t.created_at;
  filled = λ now t. record t { created_at = filled_at now t.created_at };
  touched = λ now t. t;
}

-- The id is the only unique column of the attempts and of the audit events.
abbrev pub attempts_table : Table LoginAttempt ℕ
attempts_table = record {
  rows = λ d. d.attempts;
  replace = λ rs d. record d { attempts = rs };
  key = λ a. a.id;
  created = λ a. a.created_at;
  filled = λ now a. record a { created_at = filled_at now a.created_at };
  touched = λ now a. a;
}

abbrev pub audits_table : Table AuditEvent ℕ
audits_table = record {
  rows = λ d. d.audits;
  replace = λ rs d. record d { audits = rs };
  key = λ e. e.id;
  created = λ e. e.created_at;
  filled = λ now e. record e { created_at = filled_at now e.created_at };
  touched = λ now e. e;
}

-- A positive limit is kept.
abbrev pub Within : {R : Type 0} → Option ℕ → List R → Type 0
Within none rs = Unit
Within (some n) rs = 0 < n → length rs ≤ n

-- What a listing of the matching rows up to a limit holds: the newest of them, so that those that it
-- leaves out are no newer, and it leaves none out short of the limit.
abbrev pub Newest : {R : Type 0} → (R → Time) → Option ℕ → List R → List R → Type 0
Newest {R} time limit matching rs =
    (rest : List R) × Perm (rs ++ rest) matching
    × NewestFirst time (rs ++ rest)
    × ((rest ≡ []) ⊎ (limit ≡ some (length rs)))

-- `g` runs its statements on the table `t`. A statement that fails has no effect, and an insert
-- that repeats a unique column fails.
pub record IsGorm {W R K : Type 0} (view : W → Db) (clock : W → Time) (t : Table R K) (g : Gorm W R)
    : Type 0 where
  pub create_ok :
      (r r' : R) (w : W)
      → (g.create r w).0 ≡ ok r'
      → (view (g.create r w).1 ≡ t.replace (r' ∷ t.rows (view w)) (view w))
        × (r' ≡ t.filled (clock w) r)
        × All (λ s. ¬ (t.key s ≡ t.key r')) (t.rows (view w))
  pub create_err : (r : R) (w : W) → is_ok (g.create r w).0 ≡ false → view (g.create r w).1 ≡ view w
  pub create_clock : (r : R) (w : W) → clock w ≤ clock (g.create r w).1
  pub first_ok :
      (p : R → Bool) (r : R) (w : W)
      → (g.first p w).0 ≡ ok r
      → (p r ≡ true) × Has r (t.rows (view w))
  pub first_missing :
      (p : R → Bool) (w : W)
      → (g.first p w).0 ≡ err record_not_found
      → All (λ r. p r ≡ false) (t.rows (view w))
  pub first_clock : (p : R → Bool) (w : W) → clock w ≤ clock (g.first p w).1
  pub first_view : (p : R → Bool) (w : W) → view (g.first p w).1 ≡ view w
  pub find_ok :
      (p : R → Bool) (n : Option ℕ) (rs : List R) (w : W)
      → (g.find_latest p n w).0 ≡ ok rs
      → NewestFirst t.created rs
        × All (λ r. (p r ≡ true) × Has r (t.rows (view w))) rs
        × Within n rs
        × Newest t.created n (keep p (t.rows (view w))) rs
  pub find_view : (p : R → Bool) (n : Option ℕ) (w : W) → view (g.find_latest p n w).1 ≡ view w
  pub count_ok :
      (p : R → Bool) (n : ℕ) (w : W) → (g.count p w).0 ≡ ok n → n ≡ count p (t.rows (view w))
  pub count_clock : (p : R → Bool) (w : W) → clock w ≤ clock (g.count p w).1
  pub count_view : (p : R → Bool) (w : W) → view (g.count p w).1 ≡ view w
  pub update_ok :
      (p : R → Bool) (f : R → R) (w : W)
      → (g.update p f w).0 ≡ ok tt
      → view (g.update p f w).1
        ≡ t.replace (change p (λ r. t.touched (clock w) (f r)) (t.rows (view w))) (view w)
  pub update_err :
      (p : R → Bool) (f : R → R) (w : W)
      → is_ok (g.update p f w).0 ≡ false
      → view (g.update p f w).1 ≡ view w

-- The clock does not run backwards, and neither it nor the other libraries touch the database.
pub record IsPlatform {W : Type 0} (view : W → Db) (clock : W → Time) (p : Platform W)
    : Type 0 where
  pub time_now_lem : (w : W) → (p.time_now w).0 ≡ clock w
  pub time_view : (w : W) → view (p.time_now w).1 ≡ view w
  pub time_clock : (w : W) → clock w ≤ clock (p.time_now w).1
  pub uuid_view : (w : W) → view (p.uuid_new w).1 ≡ view w
  pub uuid_clock : (w : W) → clock w ≤ clock (p.uuid_new w).1
  pub generate_view : (s : String) (w : W) → view (p.generate_from_password s w).1 ≡ view w
  pub rand_view : (n : ℕ) (w : W) → view (p.rand_read n w).1 ≡ view w
  pub rand_clock : (n : ℕ) (w : W) → clock w ≤ clock (p.rand_read n w).1
