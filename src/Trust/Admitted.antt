-- ===== src/Trust/Admitted.antt =====
-- What `trust` of verify/verify_mark.py admits: every key has a certificate of the pinned root.
use whpstanding.Prelude.{◌≡◌, subst, true, Bool-cases, inl, inr, List, [], ◌∷◌, some}
use whpstanding.Result.{
  ok, ◌>>=◌, Ensures, Ensures-bind, Ensures-need, Ensures-check, Ensures-ok, and-true, each,
  run-bind,
}
use whpstanding.Text.{Text, text_eq}
use whpstanding.Dict.{Dict, get, put}
use whpstanding.Dict.Laws.{text_eq_iff, get-put}
use whpstanding.Value.{Value, str, txt, ◌!◌, value_eq, iterate}
use whpstanding.Env.{Env, key_id}
use whpstanding.Envelope.{unseal}
use whpstanding.Trust.{Trust, profile_hash, admit_certificates, is_authorized, commits, trust}
use whpstanding.Trust.Granted.{IsCurrent}

module _ (env : Env) where
  -- A certificate `c` for the key `id` that the root signed for this profile.
  pub record Certified (root : Value) (id : Text) (c : Value) : Type 0 where
    pub envelope : Value
    pub sealed : unseal env envelope (txt "WHP-AUTHORITY-CERTIFICATE-v1") root ≡ ok c
    pub public_key : Value
    pub keyed : c ! "public_key" ≡ ok public_key
    pub identified : key_id env public_key ≡ ok id
    pub hash : Value
    pub hashed : c ! "profile_hash" ≡ ok hash
    pub profiled : value_eq hash (str profile_hash) ≡ true

  abbrev AllCertified : Value → Dict Value → Type 0
  AllCertified root keys = (id : Text) (c : Value) → get id keys ≡ some c → Certified root id c

  none-Certified : (root : Value) → AllCertified root []
  unfolding get
  none-Certified root id c h = cc

  put-Certified :
      (root : Value) (id : Text) (c : Value) (keys : Dict Value)
      → Certified root id c
      → AllCertified root keys
      → AllCertified root (put id c keys)
  put-Certified root id c keys new old j d h = elim (Bool-cases (text_eq id j)) [
    | inl same ↦
        let found : some c ≡ some d = rw (get-put id j c keys, same) at h in
        subst (λ k. Certified root k d) ((text_eq_iff id j).0 same)
          (subst (Certified root id) (cc found) new)
    | inr other ↦ old j d (rw (get-put id j c keys, other) at h)
  ]

  admit_certificates-Certified :
      (root : Value) (es : List Value) (keys : Dict Value)
      → AllCertified root keys
      → Ensures (admit_certificates env root es keys) (AllCertified root)
  unfolding admit_certificates
  admit_certificates-Certified root [] keys old = Ensures-ok keys old
  admit_certificates-Certified root (e ∷ es) keys old = Ensures-bind λ c sealed. Ensures-bind λ _ _.
      Ensures-bind λ hash hashed. Ensures-need _ _ λ profiled. Ensures-bind λ public_key keyed.
        Ensures-bind λ id identified. Ensures-need _ _ λ _.
          admit_certificates-Certified root es (put id c keys) (
            put-Certified root id c keys
              (record {
                envelope = e;
                sealed = sealed;
                public_key = public_key;
                keyed = keyed;
                identified = identified;
                hash = hash;
                hashed = hashed;
                profiled = profiled;
              })
              old)

  -- What holds of a bundle that was admitted under the pin at the time `at`.
  pub record Admitted (bundle : Value) (pin : Text) (at : Value) (t : Trust) : Type 0 where
    pub root : Value
    pub has_root : bundle ! "root_public_key" ≡ ok root
    pub root_id : Text
    pub root_identified : key_id env root ≡ ok root_id
    pub pinned : root_id ≡ pin
    pub authorization : Value
    pub has_authorization : bundle ! "profile_authorization" ≡ ok authorization
    pub authorized :
        unseal env authorization (txt "WHP-PROFILE-AUTHORIZATION-v1") root ≡ ok t.profile
    pub ratified : is_authorized env t.profile at ≡ ok true
    pub snapshot : Value
    pub has_snapshot : bundle ! "status_snapshot" ≡ ok snapshot
    pub status : Value
    pub has_status : unseal env snapshot (txt "WHP-TRUST-STATUS-v1") root ≡ ok status
    pub current : IsCurrent status at
    pub covers_authorization :
        commits env status "profile_authorization_hash" bundle "profile_authorization" ≡ ok true
    pub covers_certificates : commits env status "certificates_hash" bundle "certificates" ≡ ok true
    pub covers_revocations : commits env status "revocations_hash" bundle "revocations" ≡ ok true
    pub revoked :
        (bundle ! "revocations" >>= λ given.
        iterate given >>= λ rs. each (λ e. unseal env e (txt "WHP-KEY-REVOCATION-v1") root) rs)
        ≡ ok t.revocations
    pub certified : (id : Text) (c : Value) → get id t.keys ≡ some c → Certified root id c

  Ensures-trust :
      (bundle : Value) (pin : Text) (at : Value)
      → Ensures (trust env bundle pin at) (Admitted bundle pin at)
  unfolding trust
  Ensures-trust bundle pin at = Ensures-bind λ _ _. Ensures-need _ _ λ _. Ensures-bind λ _ _.
      Ensures-bind λ _ _. Ensures-bind λ _ _. Ensures-bind λ root has_root.
        Ensures-bind λ root_id identified. Ensures-need _ _ λ pinned.
          Ensures-bind λ authorization has_authorization. Ensures-bind λ pa authorized.
            Ensures-bind λ _ _. Ensures-check _ λ ratified. Ensures-bind λ _ _.
              Ensures-need _ _ λ _. Ensures-bind λ snapshot has_snapshot.
                Ensures-bind λ status has_status. Ensures-bind λ _ _. Ensures-bind λ from has_from.
                  Ensures-bind λ until has_until. Ensures-check _ λ current.
                    Ensures-check _ λ manifest. Ensures-bind λ _ _. Ensures-bind λ es _.
                      Ensures-bind λ keys has_keys. Ensures-bind λ given has_given.
                        Ensures-bind λ rs has_rs. Ensures-bind λ revocations has_revocations.
                          let (covers_p, rest) = and-true _ _ manifest in
                          let (covers_c, covers_r) = and-true _ _ rest in
                          Ensures-ok _ (record {
                            root = root;
                            has_root = has_root;
                            root_id = root_id;
                            root_identified = identified;
                            pinned = (text_eq_iff root_id pin).0 (unfold value_eq in pinned);
                            authorization = authorization;
                            has_authorization = has_authorization;
                            authorized = authorized;
                            ratified = ratified;
                            snapshot = snapshot;
                            has_snapshot = has_snapshot;
                            status = status;
                            has_status = has_status;
                            current = (from, until, has_from, has_until, current);
                            covers_authorization = covers_p;
                            covers_certificates = covers_c;
                            covers_revocations = covers_r;
                            certified =
                                (admit_certificates-Certified root es [] (none-Certified root)).at
                                  keys has_keys;
                            revoked = run-bind _ has_given (run-bind _ has_rs has_revocations);
                          })

  -- If `trust` admits a bundle under a pin at a time, the root's key has the hash that is pinned, the
  -- root signed a profile authorization that is ratified and valid at that time, a status snapshot that
  -- is valid at that time and commits to the authorization, the certificates and the revocations, all
  -- the revocations that are returned, and, for every key that is returned, a certificate for this
  -- profile whose public key has that key's hash.
  pub trust-Admitted :
      (bundle : Value) (pin : Text) (at : Value) (t : Trust)
      → trust env bundle pin at ≡ ok t
      → Admitted bundle pin at t
  trust-Admitted bundle pin at t h = (Ensures-trust bundle pin at).at t h
