-- ===== src/Trust/Granted.antt =====
-- When `grant` of verify/verify_mark.py accepts a signer: the grant as a conjunction of facts on the
-- documents, in both directions.
use whpstanding.Prelude.{◌≡◌, ◌↔◌, refl, ap, ◌∙◌, All-imp, not-true, String, true, false, List, All}
use whpstanding.Result.{
  ok, Ensures, Ensures-bind, Ensures-ok, Ensures-check, Ensures-need, bind-ok, run-bind, run-need,
  run-check, run-and, and-true, any_of-false, all_of-true,
}
use whpstanding.Dict.{Dict}
use whpstanding.Value.{Value, txt, ◌!◌, ◌!!◌, contains, within}
use whpstanding.Env.{Env}
use whpstanding.Envelope.{unseal}
use whpstanding.Trust.{find_key, revokes, asked_operations, grant}

-- `x in c[name]`
abbrev pub Lists : Value → String → Value → Type 0
Lists c name x = (xs : Value) × (c ! name ≡ ok xs) × (contains x xs ≡ ok true)

-- `c['valid_from'] <= at < c['valid_until']`
abbrev pub IsCurrent : Value → Value → Type 0
IsCurrent c at =
    (from : Value) × (until : Value) × (c ! "valid_from" ≡ ok from)
    × (c ! "valid_until" ≡ ok until)
    × (within from at until ≡ ok true)

module _ (env : Env) (keys : Dict Value) (revocations : List Value) (e kind : Value) (role : String)
    (ctx at : Value) where
  -- The certificate `c` of the key that signed `e` covers the role, the bounds, the time and the
  -- operations, and no revocation of that key is in effect.
  pub record IsGranted (c : Value) : Type 0 where
    pub id : Value
    pub signer : (e ! "protected" !! "key_id") ≡ ok id
    pub certified : find_key keys id ≡ ok c
    pub public_key : Value
    pub keyed : c ! "public_key" ≡ ok public_key
    pub payload : Value
    pub sealed : unseal env e kind public_key ≡ ok payload
    pub role_listed : Lists c "roles" (txt role)
    pub scope : Value
    pub scope_given : ctx ! "scope" ≡ ok scope
    pub scope_listed : Lists c "scopes" scope
    pub jurisdiction : Value
    pub jurisdiction_given : ctx ! "jurisdiction" ≡ ok jurisdiction
    pub jurisdiction_listed : Lists c "jurisdictions" jurisdiction
    pub current : IsCurrent c at
    pub unrevoked : All (λ r. revokes id at r ≡ ok false) revocations
    pub asked : List Value
    pub asked_given : asked_operations ctx ≡ ok asked
    pub operations_listed : All (λ op. Lists c "operations" op) asked

  Ensures-grant : Ensures (grant env keys revocations e kind role ctx at) IsGranted
  unfolding grant
  Ensures-grant = Ensures-bind λ id signer. Ensures-bind λ c certified.
      Ensures-bind λ public_key keyed. Ensures-bind λ payload sealed.
        Ensures-bind λ roles has_roles. Ensures-check _ λ role_in. Ensures-check _ λ bounds_in.
          Ensures-bind λ from has_from. Ensures-bind λ until has_until. Ensures-check _ λ current.
            Ensures-bind λ revoked scan. Ensures-need _ _ λ none_revoked.
              Ensures-bind λ asked has_asked. Ensures-check _ λ ops_in.
                let (scope_in, jurisdiction_in) = and-true _ _ bounds_in in
                let (scope, has_scope, rest) = bind-ok _ _ scope_in in
                let (scopes, has_scopes, in_scopes) = bind-ok _ _ rest in
                let (jurisdiction, has_jurisdiction, rest') = bind-ok _ _ jurisdiction_in in
                let (jurisdictions, has_jurisdictions, in_jurisdictions) = bind-ok _ _ rest' in
                Ensures-ok c (record {
                  id = id;
                  signer = signer;
                  certified = certified;
                  public_key = public_key;
                  keyed = keyed;
                  payload = payload;
                  sealed = sealed;
                  role_listed = (roles, has_roles, role_in);
                  scope = scope;
                  scope_given = has_scope;
                  scope_listed = (scopes, has_scopes, in_scopes);
                  jurisdiction = jurisdiction;
                  jurisdiction_given = has_jurisdiction;
                  jurisdiction_listed = (jurisdictions, has_jurisdictions, in_jurisdictions);
                  current = (from, until, has_from, has_until, current);
                  unrevoked = (any_of-false _ _).0 (scan ∙ ap ok (not-true revoked none_revoked));
                  asked = asked;
                  asked_given = has_asked;
                  operations_listed =
                      All-imp (λ op h. bind-ok _ _ h) asked ((all_of-true _ _).0 ops_in);
                })

  -- Conversely these facts are enough.
  grant-ok : {c : Value} → IsGranted c → grant env keys revocations e kind role ctx at ≡ ok c
  unfolding grant
  grant-ok {c} g =
      let (roles, r, in_roles) = g.role_listed in
      let (scopes, s, in_scopes) = g.scope_listed in
      let (jurisdictions, j, in_jurisdictions) = g.jurisdiction_listed in
      let (from, until, f, u, now) = g.current in
      let listed =
        run-and (run-bind _ g.scope_given (run-bind _ s in_scopes))
          (run-bind _ g.jurisdiction_given (run-bind _ j in_jurisdictions)) in
      let asked = All-imp (λ op (xs, h, i). run-bind _ h i) g.asked g.operations_listed in
      run-bind _ g.signer (
        run-bind _ g.certified (
          run-bind _ g.keyed (
            run-bind _ g.sealed (
              run-bind _ r (
                run-check _ in_roles (
                  run-check _ listed (
                    run-bind _ f (
                      run-bind _ u (
                        run-check _ now (
                          run-bind _ ((any_of-false _ _).1 g.unrevoked) (
                            run-need _ refl (
                              run-bind _ g.asked_given
                                (run-check _ ((all_of-true _ _).1 asked) refl)))))))))))))

  -- `grant` answers the certificate `c` exactly when `c` is the certificate of the key that the envelope
  -- names, the signature of the envelope holds under its public key, `c` lists the role, the scope, the
  -- jurisdiction and every operation asked for, the time is within its validity, and no revocation of
  -- the key is in effect at that time.
  pub grant_iff : (c : Value) → (grant env keys revocations e kind role ctx at ≡ ok c) ↔ IsGranted c
  grant_iff c = (λ h. Ensures-grant.at c h, grant-ok)
