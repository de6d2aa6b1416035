-- ===== src/Bootstrap/Laws.antt =====
-- What a start of the program leaves in the table of users.
use backend_infra_assessment.Base.{
  ◌≡◌, inl, inr, refl, sym, subst, ap, String, Bool, true, false, List, [], ◌∷◌, Result, ok, err,
  is_ok, Any, Any-imp, All-Any, Unique, ◌∙◌, Has, change, str_eq, str_eq_iff, ◌==◌, ==_iff, ◌||◌,
  Result-cases, Bool-cases, arith,
}
use backend_infra_assessment.Domain.{Time, User, UserRepository, role_admin, Error}
use backend_infra_assessment.Domain.Errors.{errors_is, errors_is-infrastructure, user_not_found}
use backend_infra_assessment.Database.{Platform}
use backend_infra_assessment.Database.Contract.{Db, IsPlatform}
use backend_infra_assessment.Repository.Contract.{IsUserRepository}
use backend_infra_assessment.Auth.{new_user}
use backend_infra_assessment.Bootstrap.{
  Outcome, already_admin, promote, create_admin, ensure_found, ensure_admin,
}

change-Any :
    (P : User → Type 0) (test : User → Bool) (f : User → User) (u : User) (xs : List User)
    → test u ≡ true
    → P (f u)
    → Has u xs
    → Any P (change test f xs)
change-Any P test f u [] h k m = absurd m
change-Any P test f u (x ∷ xs) h k (inl e) =
    let t : test x ≡ true = subst (λ y. test y ≡ true) (sym e) h in
    inl (rw t (subst (λ y. P (f y)) (sym e) k))
change-Any P test f u (x ∷ xs) h k (inr m) = inr (change-Any P test f u xs h k m)

-- There is an administrator of this address.
abbrev pub HasAdmin : String → Db → Type 0
HasAdmin email db = Any (λ u. (u.email ≡ email) × (u.role ≡ role_admin)) db.users

outcome_inj : {a b : Outcome} → Path (Result Error Outcome) (ok a) (ok b) → a ≡ b
outcome_inj h = cc h

module _ {W : Type 0} (view : W → Db) (clock : W → Time) (p : Platform W)
    (store : UserRepository W) where
  promote-ok :
      (u : User) (outcome : Outcome) (w : W)
      → IsUserRepository view clock store
      → Has u (view w).users
      → (promote p store u w).0 ≡ ok outcome
      → HasAdmin u.email (view (promote p store u w).1)
  unfolding promote
  promote-ok u outcome w b found h = elim (Bool-cases (str_eq u.role role_admin)) [
    | inl e ↦
        let r : u.role ≡ role_admin = ground (arith, str_eq_iff u.role role_admin) in
        rw e (
          Any-imp (λ x. x ≡ u) (λ x. (x.email ≡ u.email) × (x.role ≡ role_admin)) (view w).users
            (λ x i. (ap (λ (y : User). y.email) i, ap (λ (y : User). y.role) i ∙ r)) found)
    | inr e ↦ elim (Result-cases (store.update_role u.id role_admin w).0) [
      | inl (t, f) ↦
          let (now, g) = b.update_role_ok u.id role_admin w f in
          let own : (u.id == u.id) ≡ true = ground (arith, ==_iff u.id u.id) in
          rw (e, f, g)
            (change-Any (λ x. (x.email ≡ u.email) × (x.role ≡ role_admin)) (λ x. x.id == u.id)
              (λ x. record x { role = role_admin; updated_at = now }) u (view w).users own
              (refl, refl) found)
      | inr (x, f) ↦ cc (rw (e, f) at h)
    ]
  ]

  create_admin-ok :
      (email password : String) (outcome : Outcome) (w : W)
      → IsPlatform view clock p
      → IsUserRepository view clock store
      → (create_admin p store email password w).0 ≡ ok outcome
      → HasAdmin email (view (create_admin p store email password w).1)
  unfolding create_admin
  create_admin-ok email password outcome w pl b h =
      elim (Result-cases (p.generate_from_password password w).0) [
        | inl (hash, e) ↦
            let w1 = (p.generate_from_password password w).1 in
            elim (Result-cases (store.create (new_user email hash role_admin) w1).0) [
              | inl (u, f) ↦
                  let (g, same, _, role, _) = b.create_ok (new_user email hash role_admin) u w1 f in
                  rw (e, f, g) (inl (same, role))
              | inr (x, f) ↦ cc (rw (e, f) at h)
            ]
        | inr (x, e) ↦ cc (e, h)
      ]

  -- After a start with a configured administrator that reports no error, there is an administrator
  -- of that address.
  pub ensure_admin-ok :
      (email password : String) (outcome : Outcome) (w : W)
      → IsPlatform view clock p
      → IsUserRepository view clock store
      → ¬ (email ≡ "")
      → ¬ (password ≡ "")
      → (ensure_admin p store email password w).0 ≡ ok outcome
      → HasAdmin email (view (ensure_admin p store email password w).1)
  unfolding ensure_admin ensure_found
  ensure_admin-ok email password outcome w pl b h k r =
      let h1 : str_eq email "" ≡ false = ground (arith, str_eq_iff email "") in
      let k1 : str_eq password "" ≡ false = ground (arith, str_eq_iff password "") in
      let w1 = (store.find_by_email email w).1 in
      let same = b.find_by_email_view email w in
      elim (Result-cases (store.find_by_email email w).0) [
        | inl (u, e) ↦
            let (owns, found) = b.find_by_email_ok email u w e in
            let there : Has u (view w1).users = rw same found in
            let done = promote-ok u outcome w1 b there (rw (h1, k1, e) at r) in
            rw (h1, k1, e) (subst (λ x. HasAdmin x (view (promote p store u w1).1)) owns done)
        | inr (x, e) ↦ elim (Bool-cases (errors_is x user_not_found)) [
          | inl f ↦
              rw (h1, k1, e, f)
                (create_admin-ok email password outcome w1 pl b (rw (h1, k1, e, f) at r))
          | inr f ↦ cc (rw (h1, k1, e, f) at r)
        ]
      ]

  promote-err :
      (u : User) (w : W)
      → IsUserRepository view clock store
      → is_ok (promote p store u w).0 ≡ false
      → view (promote p store u w).1 ≡ view w
  unfolding promote
  promote-err u w b h = elim (Bool-cases (str_eq u.role role_admin)) [
    | inl e ↦ cc (rw e at h)
    | inr e ↦ elim (Result-cases (store.update_role u.id role_admin w).0) [
      | inl (t, f) ↦ cc (rw (e, f) at h)
      | inr (x, f) ↦ rw (e, f) (b.update_role_err u.id role_admin w (rw f refl))
    ]
  ]

  create_admin-err :
      (email password : String) (w : W)
      → IsPlatform view clock p
      → IsUserRepository view clock store
      → is_ok (create_admin p store email password w).0 ≡ false
      → view (create_admin p store email password w).1 ≡ view w
  unfolding create_admin
  create_admin-err email password w pl b h =
      let kept = pl.generate_view password w in
      elim (Result-cases (p.generate_from_password password w).0) [
        | inl (hash, e) ↦
            let w1 = (p.generate_from_password password w).1 in
            elim (Result-cases (store.create (new_user email hash role_admin) w1).0) [
              | inl (u, f) ↦ cc (rw (e, f) at h)
              | inr (x, f) ↦
                  rw (e, f) (b.create_err (new_user email hash role_admin) w1 (rw f refl) ∙ kept)
            ]
        | inr (x, e) ↦ rw e kept
      ]

  -- A start that reports an error has changed no table.
  pub ensure_admin-err :
      (email password : String) (w : W)
      → IsPlatform view clock p
      → IsUserRepository view clock store
      → is_ok (ensure_admin p store email password w).0 ≡ false
      → view (ensure_admin p store email password w).1 ≡ view w
  unfolding ensure_admin ensure_found
  ensure_admin-err email password w pl b h =
      let w1 = (store.find_by_email email w).1 in
      let same = b.find_by_email_view email w in
      elim (Bool-cases (str_eq email "" || str_eq password "")) [
        | inl z ↦ cc (rw z at h)
        | inr z ↦ elim (Result-cases (store.find_by_email email w).0) [
          | inl (u, e) ↦ rw (z, e) (promote-err u w1 b (rw (z, e) at h) ∙ same)
          | inr (x, e) ↦ elim (Bool-cases (errors_is x user_not_found)) [
            | inl f ↦
                rw (z, e, f) (create_admin-err email password w1 pl b (rw (z, e, f) at h) ∙ same)
            | inr f ↦ rw (z, e, f) same
          ]
        ]
      ]

-- With no two users of one address, the user of the address is the administrator.
the_admin :
    (email : String) (u : User) (xs : List User)
    → Unique (λ x. x.email) xs
    → u.email ≡ email
    → Has u xs
    → Any (λ x. (x.email ≡ email) × (x.role ≡ role_admin)) xs
    → u.role ≡ role_admin
the_admin email u [] h e m k = absurd m
the_admin email u (x ∷ xs) (h, hs) e (inl i) (inl (_, r)) = ap (λ (y : User). y.role) (sym i) ∙ r
the_admin email u (x ∷ xs) (h, hs) e (inl i) (inr k) =
    All-Any (λ y. ¬ (y.email ≡ x.email)) (λ y. (y.email ≡ email) × (y.role ≡ role_admin)) xs
      (λ y n m. absurd (n (m.0 ∙ sym e ∙ ap (λ (z : User). z.email) (sym i)))) h k
the_admin email u (x ∷ xs) (h, hs) e (inr m) (inl (f, r)) =
    All-Any (λ y. ¬ (y.email ≡ x.email)) (λ y. y ≡ u) xs
      (λ y n i. absurd (n (ap (λ (z : User). z.email) i ∙ e ∙ sym f))) h m
the_admin email u (x ∷ xs) (h, hs) e (inr m) (inr k) = the_admin email u xs hs e m k

module _ {W : Type 0} (view : W → Db) (clock : W → Time) (p : Platform W)
    (store : UserRepository W) where
  -- Where the administrator exists and no two users share an address, a start that reports no error
  -- finds it and changes no table.
  pub ensure_admin-again :
      (email password : String) (outcome : Outcome) (w : W)
      → IsUserRepository view clock store
      → Unique (λ u. u.email) (view w).users
      → HasAdmin email (view w)
      → ¬ (email ≡ "")
      → ¬ (password ≡ "")
      → (ensure_admin p store email password w).0 ≡ ok outcome
      → (outcome ≡ already_admin) × (view (ensure_admin p store email password w).1 ≡ view w)
  unfolding ensure_admin ensure_found promote
  ensure_admin-again email password outcome w b unique has h k r =
      let h1 : str_eq email "" ≡ false = ground (arith, str_eq_iff email "") in
      let k1 : str_eq password "" ≡ false = ground (arith, str_eq_iff password "") in
      let same = b.find_by_email_view email w in
      elim (Result-cases (store.find_by_email email w).0) [
        | inl (u, e) ↦
            let (owns, found) = b.find_by_email_ok email u w e in
            let role = the_admin email u (view w).users unique owns found has in
            let f : str_eq u.role role_admin ≡ true =
              ground (arith, str_eq_iff u.role role_admin) in
            (sym (outcome_inj (rw (h1, k1, e, f) at r)), rw (h1, k1, e, f) same)
        | inr (x, e) ↦ elim (b.find_by_email_error email x w e) [
          | inl f ↦
              All-Any (λ u. ¬ (u.email ≡ email)) (λ u. (u.email ≡ email) × (u.role ≡ role_admin))
                (view w).users (λ u n m. absurd (n m.0))
                (b.find_by_email_missing email w (e ∙ ap err f)) has
          | inr f ↦
              let g = errors_is-infrastructure x user_not_found f in
              absurd (ground (arith, (rw (h1, k1, e, g) at r)))
        ]
      ]
