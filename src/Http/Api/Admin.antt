-- ===== src/Http/Api/Admin.antt =====
-- What is recorded of a request that the guards of /admin let through.
use backend_infra_assessment.Base.{
  ◌≡◌, inl, inr, refl, sym, ap, subst, ◌∙◌, String, Bool, true, false, Option, none, some, ==_iff,
  [], ◌∷◌, ok, ◌>>◌, pure, >>=-eq-ok, arith,
}
use backend_infra_assessment.Domain.{Time, uuid_nil, role_admin}
use backend_infra_assessment.Database.{Platform}
use backend_infra_assessment.Database.Contract.{Db, IsPlatform}
use backend_infra_assessment.Repository.Contract.{IsAuditRepository}
use backend_infra_assessment.Jwt.{JwtLibrary}
use backend_infra_assessment.Http.Audit.{Request, Response, actor_of}
use backend_infra_assessment.Http.Engine.{IsLogger, Audited, entered, id_of, engine-audits}
use backend_infra_assessment.Http.Guard.{
  Identity, auth, require_role, rate_limit_by_role, require_role-ok,
}
use backend_infra_assessment.Http.Probes.{Endpoint, lists_users, summarizes, routes}
use backend_infra_assessment.Http.Routes.{admin}
use backend_infra_assessment.Http.Api.{
  Api, Input, matched, is_protected, chain, caller, halted, serve, handle,
}
use backend_infra_assessment.Http.Api.Refused.{is_special-matched, unlike}

-- The endpoints of the group /admin.
abbrev pub is_admin : Endpoint → Bool
is_admin lists_users = true
is_admin summarizes = true
is_admin _ = false

-- The actor of an event, for an identity with a user id other than the nil UUID.
named_actor :
    (who : Identity) (found : Option Identity)
    → ¬ (who.user_id ≡ uuid_nil)
    → found ≡ some who
    → actor_of found ≡ some who.user_id
named_actor who found real h = rw h (ground (arith, ==_iff who.user_id uuid_nil))

is_admin-protected : (e : Endpoint) → is_admin e ≡ true → is_protected e ≡ true
is_admin-protected e h = ground arith

module _ {W : Type 0} (p : Platform W) (lib : JwtLibrary) (api : Api W) where
  -- Who passes the guards of /admin has passed Auth, as an administrator.
  admin-auth :
      (header : String) (who : Identity) (w : W)
      → (admin p lib api.router header w).0 ≡ ok who
      → ((auth p lib api.router.service.jwt header w).0 ≡ ok who) × (who.role ≡ role_admin)
  unfolding admin
  admin-auth header who w h =
      let lim = api.router.limiter in
      let (caller, e, k, _) =
        >>=-eq-ok (auth p lib api.router.service.jwt header)
          (λ c. require_role (role_admin ∷ []) c >> (rate_limit_by_role p lim c >> pure c)) w h in
      let w1 = (auth p lib api.router.service.jwt header w).1 in
      let (_, f, l, _) =
        >>=-eq-ok (require_role (role_admin ∷ []) caller)
          (λ _. rate_limit_by_role p lim caller >> pure caller) w1 k in
      let (_, _, m, _) =
        >>=-eq-ok (rate_limit_by_role p lim caller) (λ _. pure caller)
          (require_role (role_admin ∷ []) caller w1).1 l in
      let same : caller ≡ who = cc m in
      elim (require_role-ok (role_admin ∷ []) caller w1 f) [
        | inl n ↦ (e ∙ ap ok same, ap (λ (c : Identity). c.role) (sym same) ∙ sym n)
        | inr x ↦ absurd x
      ]

  served :
      (e : Endpoint) (client_ip : String) (c : Input) (who : Identity) (w : W)
      → is_protected e ≡ true
      → (auth p lib api.router.service.jwt c.authorization w).0 ≡ ok who
      → api.panics e c w ≡ none
      → (r : Response) × ((serve p lib api (some e) client_ip c w).0 ≡ some r)
        × (r.identity ≡ some who)
  unfolding serve caller halted
  served e client_ip c who w k h quiet =
      let (status, w') = chain p lib api e client_ip c w in
      (
        record {
          status = status;
          size = api.size w';
          identity = caller p lib api e c w;
          errors = [];
        },
        rw (k, h, quiet) refl,
        rw (k, h) refl,
      )

  module _ (view : W → Db) (clock : W → Time) where
    -- A request that the guards of /admin let through, whose token names a user id other than the nil
    -- UUID, and whose handler does not panic, is recorded by an event under the administrator whose
    -- token it carried, with the status that it is answered with, whatever the handler answers, or the
    -- insert of that event has failed.
    pub handle-admin :
        (c : Request) (input : Input) (e : Endpoint) (who : Identity) (w : W)
        → IsPlatform view clock p
        → IsLogger view api.log
        → IsAuditRepository view clock api.audits
        → matched (routes api.env) c.method c.full_path ≡ some e
        → is_admin e ≡ true
        → (admin p lib api.router input.authorization (entered p api.log api.audits c w)).0 ≡ ok who
        → ¬ (who.user_id ≡ uuid_nil)
        → api.panics e input (entered p api.log api.audits c w) ≡ none
        → (r : Response) × ((handle p lib api c input w).0 ≡ inl r)
          × (actor_of r.identity ≡ some who.user_id)
          × (who.role ≡ role_admin)
          × Audited view clock p api.log api.audits c
              (id_of view clock p api.log api.audits c w)
              r
              (serve p lib api (some e) c.client_ip input (entered p api.log api.audits c w)).1
              (handle p lib api c input w).1
    unfolding handle
    handle-admin c input e who w ip il b found k h real quiet =
        let next =
          serve p lib api (matched (routes api.env) c.method c.full_path) c.client_ip input in
        let w0 = entered p api.log api.audits c w in
        let shielded = is_admin-protected e k in
        let (passed, role) = admin-auth input.authorization who w0 h in
        let (r, answered, named) = served e c.client_ip input who w0 shielded passed quiet in
        let plain = is_special-matched api.env c.method c.full_path e found shielded in
        let (answer, audited) =
          engine-audits view clock p api.log api.audits c next r w ip il b
            (unlike c.full_path "/livez" (ground (arith, plain)))
            (unlike c.full_path "/readyz" (ground (arith, plain)))
            (unlike c.full_path "/swagger/*any" (ground (arith, plain))) (rw found answered) in
        (
          r,
          answer,
          named_actor who r.identity real named,
          role,
          subst
              (λ o.
                Audited view clock p api.log api.audits c
                  (id_of view clock p api.log api.audits c w) r
                  (serve p lib api o c.client_ip input w0).1 (handle p lib api c input w).1)
              found audited,
        )
