-- ===== src/Tests/Memory.antt =====
-- A world in memory that meets the contract of the database and of the platform.
use Prim.Native.Nat.{zero, suc}
use Prim.Native.String.{◌++◌}
use Prim.Native.Char.{Char}
use Prim.Native.String.append as append_lem
use mathlib.Core.Bool.{false≢true}
use backend_infra_assessment.Base.{
  ℕ, ◌+◌, ◌≡◌, String, Bool, true, none, some, List, [], ◌∷◌, ok, err, All, inl, inr, Exec, count,
  change, keep, if◌then◌else◌, arith, refl, ap, ◌==◌, str_eq, ◌↔◌, Bool-cases, sym, ◌∙◌, subst, max,
  ◌<◌, false,
}
use backend_infra_assessment.Domain.{Time, LoginAttempt}
use backend_infra_assessment.Database.{GormError, failure, Gorm, Platform}
use backend_infra_assessment.Database.Contract.{Db, Table, attempts_table, IsGorm, IsPlatform}
unfoldable pub use backend_infra_assessment.Tests.Rows.{first_of_rows, sorted}
use backend_infra_assessment.Tests.Rows.{first_sound, first_none, limited, found_rows}

pub record Memory : Type 0 where
  pub db : Db
  pub clock : Time
  pub next : ℕ

abbrev pub db_of : Memory → Db
db_of w = w.db

abbrev pub clock_of : Memory → Time
clock_of w = w.clock

module _ {R K : Type 0} (t : Table R K) (same : K → K → Bool) where
  unfoldable pub occurs : K → List R → Bool
  occurs k [] = false
  occurs k (r ∷ rs) = if same (t.key r) k then true else occurs k rs

  occurs_not :
      (sound : (a b : K) → (same a b ≡ true) ↔ (a ≡ b)) (k : K) (rs : List R)
      → occurs k rs ≡ false
      → All (λ r. ¬ (t.key r ≡ k)) rs
  unfolding occurs
  occurs_not sound k [] h = tt
  occurs_not sound k (r ∷ rs) h = elim (Bool-cases (same (t.key r) k)) [
    | inl y ↦ absurd (ground (arith, y))
    | inr n ↦ (λ e. false≢true (sym n ∙ (sound (t.key r) k).1 e), occurs_not sound k rs (rw n at h))
  ]

  unfoldable pub create_row : R → Exec Memory GormError R
  create_row r w =
      let row = t.filled w.clock r in
      if occurs (t.key row) (t.rows w.db)
      then (err (failure "duplicate key value"), w)
      else (ok row, record w { db = t.replace (row ∷ t.rows w.db) w.db })

  unfoldable pub memory_gorm : Gorm Memory R
  unfolding create_row occurs first_of_rows
  memory_gorm = record {
    create = create_row;
    first = λ p w. (first_of_rows p (t.rows w.db), w);
    find_latest = λ p n w. (ok (limited n (sorted t.created (keep p (t.rows w.db)))), w);
    count = λ p w. (ok (count p (t.rows w.db)), w);
    update = λ p f w. (
      ok tt,
      record w { db = t.replace (change p (λ r. t.touched w.clock (f r)) (t.rows w.db)) w.db },
    );
  }

  create_row_ok :
      ((a b : K) → (same a b ≡ true) ↔ (a ≡ b))
      → (r r' : R) (w : Memory) → (create_row r w).0 ≡ ok r'
      → (db_of (create_row r w).1 ≡ t.replace (r' ∷ t.rows w.db) w.db)
        × (r' ≡ t.filled w.clock r)
        × All (λ s. ¬ (t.key s ≡ t.key r')) (t.rows w.db)
  unfolding create_row
  create_row_ok sound r r' w h =
      let row = t.filled w.clock r in
      elim (Bool-cases (occurs (t.key row) (t.rows w.db))) [
        | inl y ↦ absurd (ground (arith, y))
        | inr n ↦
            let e : row ≡ r' = ground (arith, n) in
            (
              ground (arith, n),
              sym e,
              subst (λ x. All (λ s. ¬ (t.key s ≡ t.key x)) (t.rows w.db)) e
                  (occurs_not sound (t.key row) (t.rows w.db) n),
            )
      ]

  pub memory_gorm-IsGorm :
      ((a b : K) → (same a b ≡ true) ↔ (a ≡ b)) → IsGorm db_of clock_of t memory_gorm
  unfolding memory_gorm create_row
  memory_gorm-IsGorm sound = record {
    create_ok = create_row_ok sound;
    create_err = λ r w h. ground arith;
    create_clock = λ r w. ground arith;
    first_ok = λ p r w h. first_sound p (t.rows w.db) r h;
    first_missing = λ p w h. first_none p (t.rows w.db) h;
    first_clock = λ p w. omega arith;
    first_view = λ p w. refl;
    find_ok = λ p n rs w h. found_rows t.created p n (t.rows w.db) rs (cc h);
    find_view = λ p n w. refl;
    count_ok = λ p n w h. ground arith;
    count_clock = λ p w. omega arith;
    count_view = λ p w. refl;
    update_ok = λ p f w h. refl;
    update_err = λ p f w h. absurd (ground arith);
  }

-- The text of a number, in unary.
unfoldable pub tally : ℕ → String
tally zero = ""
tally (suc n) = "1" ++ tally n

unfoldable pub untally : String → ℕ
untally String.[] = 0
untally (String.◌∷◌ c s) = suc (untally s)

pub untally-tally : (n : ℕ) → untally (tally n) ≡ n
unfolding tally untally
untally-tally zero = refl
untally-tally (suc n) =
    let one : Char = "1" in
    let e =
      append_lem.cons one String.[] (tally n)
      ∙ ap (λ t. String.◌∷◌ one t) (append_lem.nil (tally n)) in
    ap untally e ∙ ap suc (untally-tally n)

abbrev first_byte : List ℕ → ℕ
first_byte [] = 0
first_byte (b ∷ bs) = b

-- A new id is above the ids of all attempts.
unfoldable pub highest : List LoginAttempt → ℕ
highest [] = 0
highest (a ∷ rows) = max a.id (highest rows)

pub occurs-highest :
    (k : ℕ) (rows : List LoginAttempt)
    → highest rows < k
    → occurs attempts_table ◌==◌ k rows ≡ false
unfolding occurs highest
occurs-highest k [] h = refl
occurs-highest k (a ∷ rows) h = ground (arith, occurs-highest k rows (omega arith))

-- Every reading of the clock takes a nanosecond.
unfoldable pub memory_platform : Platform Memory
unfolding tally untally highest
memory_platform = record {
  time_now = λ w. (w.clock, record w { clock = w.clock + 1 });
  uuid_new = λ w. (suc (w.next + highest w.db.attempts), record w { next = w.next + 1 });
  uuid_string = tally;
  uuid_parse = λ s. some (untally s);
  generate_from_password = λ s w. (ok ("bcrypt:" ++ s), w);
  compare_hash_and_password = λ h s. if str_eq h ("bcrypt:" ++ s) then none else some "mismatch";
  sum256 = λ s. "sha256:" ++ s;
  encode_to_string = λ b. b;
  rand_read = λ n w. (ok (w.next ∷ []), record w { next = w.next + 1 });
  base64_raw_url = λ bs. tally (first_byte bs);
}

pub memory_platform-IsPlatform : IsPlatform db_of clock_of memory_platform
unfolding memory_platform
memory_platform-IsPlatform = record {
  time_now_lem = λ w. refl;
  time_view = λ w. refl;
  time_clock = λ w. omega arith;
  uuid_view = λ w. refl;
  uuid_clock = λ w. omega arith;
  generate_view = λ s w. refl;
  rand_view = λ n w. refl;
  rand_clock = λ n w. omega arith;
}

-- A platform over any world, which leaves it alone.
abbrev pub still_platform : {W : Type 0} → Platform W
still_platform = record {
  time_now = λ w. (1000000000, w);
  uuid_new = λ w. (1, w);
  uuid_string = tally;
  uuid_parse = λ s. some (untally s);
  generate_from_password = λ s w. (ok s, w);
  compare_hash_and_password = λ h s. if str_eq h s then none else some "mismatch";
  sum256 = λ s. s;
  encode_to_string = λ b. b;
  rand_read = λ n w. (ok [], w);
  base64_raw_url = λ bs. "";
}
