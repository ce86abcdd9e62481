-- ===== src/Registry/Status.antt =====
-- What the status that `verify_registry` of verify/verify_mark.py returns rests on.
use whpstanding.Prelude.{
  ◌≡◌, refl, sym, ◌∙◌, ap, subst, Bool, true, false, Bool-cases, inl, inr, List, Option, none, some,
  if◌then◌else◌,
}
use whpstanding.Result.{
  Result, ok, err, ◌>>=◌, ◌and◌, need, Ensures, Ensures-bind, Ensures-check, Ensures-ok, and-true,
  bind-ok, ok-injective, run-bind,
}
use whpstanding.Text.{Text, lit, text_eq}
use whpstanding.Value.{Value, null, txt, ◌!◌, ◌!!◌, value_eq, iterate}
use whpstanding.Compare.{◌=?◌, ◌≤?◌, text, agree}
use whpstanding.Env.{Env}
use whpstanding.Trust.{Trust, trust, grant}
use whpstanding.Discovery.Resolution.{is_fresh}
use whpstanding.Registry.{
  empty_chain, Registry, last_event, timed_status, regrant_all, limit_status, current_status,
  verify_registry,
}
use whpstanding.Registry.Regranted.{Regranted, Ensures-regrant_all}
use whpstanding.Registry.History.{Equals, IsHistory, IsLast, eq-Equals, check_events-IsHistory}

module _ (env : Env) (snapshot result : Value) (result_hash pin : Text) (at : Value) where
  -- The snapshot is admitted and fresh, its events are a history, and the status follows from the last.
  pub record Reported (status : Value) : Type 0 where
    pub p : Value
    pub has_result : result ! "payload" ≡ ok p
    pub sp : Value
    pub has_snapshot : snapshot ! "payload" ≡ ok sp
    pub bundle : Value
    pub has_bundle : sp ! "trust_bundle" ≡ ok bundle
    pub admitted : Trust
    pub trusted : trust env bundle pin at ≡ ok admitted
    pub bounds : Value
    pub has_bounds : (p ! "submission" !! "bounds") ≡ ok bounds
    pub certificate : Value
    pub granted :
        grant env admitted.keys admitted.revocations snapshot
          (txt "WHP-REGISTRY-SNAPSHOT-v1")
          "REGISTRY"
          bounds
          at
        ≡ ok certificate
    pub fresh : is_fresh sp at ≡ ok true
    pub same_purchase : agree sp p "purchase_id" ≡ ok true
    pub same_result : (sp ! "result_hash" =? text result_hash) ≡ ok true
    pub same_mark : agree sp p "mark_id" ≡ ok true
    pub events : List Value
    pub has_events : (sp ! "events" >>= iterate) ≡ ok events
    pub history :
        IsHistory env (record { result = p; snapshot = sp; admitted = admitted }) 0 null none events
    pub last : Value
    pub is_last : IsLast none events (some last)
    pub timed : Value
    pub has_timed :
        timed_status env (record { result = p; snapshot = sp; admitted = admitted }) last at
        ≡ ok timed
    pub current :
        status
        ≡ current_status env
            (record { result = p; snapshot = sp; admitted = admitted })
            result
            timed
            at
    pub stated : Equals sp "status" status

  last_event-some :
      (g : Registry) (o : Option Value) (last : Value)
      → last_event env g o ≡ ok last
      → o ≡ some last
  unfolding last_event need ◌>>=◌
  last_event-some g none last h = cc
  last_event-some g (some ep) last h = ap some (ok-injective h)

  Ensures-registry : Ensures (verify_registry env snapshot result result_hash pin at) Reported
  unfolding verify_registry
  Ensures-registry = Ensures-bind λ p has_result. Ensures-bind λ sp has_snapshot.
      Ensures-bind λ _ _. Ensures-bind λ bundle has_bundle. Ensures-bind λ admitted trusted.
        Ensures-bind λ bounds has_bounds. Ensures-bind λ certificate granted.
          Ensures-check _ λ fresh. Ensures-check _ λ bound. Ensures-bind λ given has_given.
            Ensures-bind λ events has_events. Ensures-bind λ chain has_chain.
              Ensures-bind λ last has_last. Ensures-bind λ timed has_timed.
                Ensures-check _ λ stated.
                  let g : Registry = record { result = p; snapshot = sp; admitted = admitted } in
                  let (purchase, rest) = and-true _ _ bound in
                  let (result_same, mark) = and-true _ _ rest in
                  let (history, ends) =
                    (check_events-IsHistory env g empty_chain events).at chain has_chain in
                  Ensures-ok _ (record {
                    p = p;
                    has_result = has_result;
                    sp = sp;
                    has_snapshot = has_snapshot;
                    bundle = bundle;
                    has_bundle = has_bundle;
                    admitted = admitted;
                    trusted = trusted;
                    bounds = bounds;
                    has_bounds = has_bounds;
                    certificate = certificate;
                    granted = granted;
                    fresh = fresh;
                    same_purchase = purchase;
                    same_result = result_same;
                    same_mark = mark;
                    events = events;
                    has_events = run-bind _ has_given has_events;
                    history = history;
                    last = last;
                    is_last =
                        subst (IsLast none events) (last_event-some g chain.last last has_last)
                          ends;
                    timed = timed;
                    has_timed = has_timed;
                    current = refl;
                    stated = eq-Equals sp "status" _ stated;
                  })

  -- what is active was not expired
  expired-active :
      (status timed : Value) (expired : Bool)
      → (if expired then txt "EXPIRED" else status) ≡ timed
      → value_eq timed (txt "ACTIVE") ≡ true
      → (expired ≡ false) × (value_eq status (txt "ACTIVE") ≡ true)
  unfolding value_eq txt lit text_eq
  expired-active status timed true e h =
      cc (subst (λ v. value_eq v (txt "ACTIVE") ≡ true) (sym e) h)
  expired-active status timed false e h =
      (refl, subst (λ v. value_eq v (txt "ACTIVE") ≡ true) (sym e) h)

  true_and : (b : Bool) (n : Result Bool) → b ≡ true → (ok b and n) ≡ ok false → n ≡ ok false
  unfolding ◌and◌
  true_and true n e h = h
  true_and false n e h = cc

  limit_status-active :
      (g : Registry) (timed : Value) (m : Result (Unit {0}))
      → value_eq (limit_status env g timed m) (txt "ACTIVE") ≡ true
      → m ≡ ok tt
  unfolding limit_status value_eq txt lit text_eq
  limit_status-active g timed (ok u) h = refl
  limit_status-active g timed (err f) h = cc

  module _ (g : Registry) where
    current_status-active :
        (timed : Value)
        → value_eq (current_status env g result timed at) (txt "ACTIVE") ≡ true
        → (value_eq timed (txt "ACTIVE") ≡ true) × (regrant_all env g result at ≡ ok tt)
    unfolding current_status
    current_status-active timed h = elim (Bool-cases (value_eq timed (txt "ACTIVE"))) [
      | inl active ↦
          (active, limit_status-active g timed (regrant_all env g result at) (rw active at h))
      | inr other ↦ cc (other, rw other at h)
    ]

    timed_status-active :
        (last timed : Value)
        → timed_status env g last at ≡ ok timed
        → value_eq timed (txt "ACTIVE") ≡ true
        → Equals last "status" (txt "ACTIVE") × ((g.result ! "expires_at" ≤? ok at) ≡ ok false)
    unfolding timed_status
    timed_status-active last timed h active =
        let (status, has_status, rest) = bind-ok _ _ h in
        let (expired, tested, out) = bind-ok _ _ rest in
        let (going, same) = expired-active status timed expired (ok-injective out) active in
        (
          (status, has_status, same),
          true_and (value_eq status (txt "ACTIVE")) _ same (tested ∙ ap ok going),
        )

  -- If `verify_registry` returns a status, the snapshot is signed by a registry that the pinned root
  -- admits for the bounds of the result at that time, it is fresh, and it is about the result; its
  -- events are a history, numbered from 0 and chained by their hashes, in which no event follows a
  -- final one and every later event has a command of the root; and the status is what follows from the
  -- last event at that time, and what the snapshot states.
  pub verify_registry-Reported :
      (status : Value)
      → verify_registry env snapshot result result_hash pin at ≡ ok status
      → Reported status
  verify_registry-Reported status h = Ensures-registry.at status h

  -- If `verify_registry` returns ACTIVE, the last event says so, the result has not expired at that time,
  -- and at that time the key that issued the result is granted the role ISSUER for its bounds, the key of
  -- every source the role SOURCE, and that of every transition the role TRANSITION, for these bounds and
  -- the operations that the source or the transition states, with a certificate that is current and not
  -- revoked.
  pub registry_active :
      (status : Value)
      → verify_registry env snapshot result result_hash pin at ≡ ok status
      → value_eq status (txt "ACTIVE") ≡ true
      → (r : Reported status) × Equals r.last "status" (txt "ACTIVE")
        × ((r.p ! "expires_at" ≤? ok at) ≡ ok false)
        × Regranted env
            (record { result = r.p; snapshot = r.sp; admitted = r.admitted })
            at
            r.bounds
            result
  registry_active status h active =
      let r = Ensures-registry.at status h in
      let g : Registry = record { result = r.p; snapshot = r.sp; admitted = r.admitted } in
      let (still, granted) =
        current_status-active g r.timed
          (subst (λ v. value_eq v (txt "ACTIVE") ≡ true) r.current active) in
      let (recorded, going) = timed_status-active g r.last r.timed r.has_timed still in
      (
        r,
        recorded,
        going,
        (Ensures-regrant_all env g at r.bounds r.has_bounds result).at tt granted,
      )
