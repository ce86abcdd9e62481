-- ===== src/Registry/History.antt =====
-- What a chain of events that the registry loop of verify/verify_mark.py accepts is.
use whpstanding.Prelude.{
  ◌≡◌, refl, subst, ℕ, suc, true, false, not-true, String, List, [], ◌∷◌, Option, none, some, pos,
  if◌then◌else◌,
}
use whpstanding.Result.{
  ok, ◌>>=◌, Ensures, Ensures-bind, Ensures-check, Ensures-last, Ensures-ok, Ensures-map, and-true,
  bind-ok, ok-injective,
}
use whpstanding.Text.{Text}
use whpstanding.Value.{Value, int, str, txt, ◌!◌, ◌!!◌, value_eq, is_null, truthy, contains_value}
use whpstanding.Compare.{◌=?◌, ◌≤?◌, agree, agree_all}
use whpstanding.Env.{Env, digest}
use whpstanding.Envelope.{unseal}
use whpstanding.Trust.{grant}
use whpstanding.Registry.{
  Chain, Registry, final_statuses, check_origin, check_command, check_step, check_event,
  check_events,
}

-- `x[k] == v`
abbrev pub Equals : Value → String → Value → Type 0
Equals x k v = (w : Value) × (x ! k ≡ ok w) × (value_eq w v ≡ true)

-- What an event may follow: nothing, if it records the status of issuance and no command; or an event
-- that is not final and not later, by a command of the root that repeats it.
abbrev pub Follows : Env → Registry → Value → Option Value → Value → Type 0
Follows env g previous none ep =
    (mark : Value) × (g.result ! "mark_id" ≡ ok mark)
    × Equals ep "status" (if truthy mark then txt "ACTIVE" else txt "ASSESSED_NO_MARK")
    × (command : Value) × (ep ! "command" ≡ ok command)
    × (is_null command ≡ true)
Follows env g previous (some last) ep =
    (status : Value) × (last ! "status" ≡ ok status)
    × (contains_value status final_statuses ≡ false)
    × ((last ! "at" ≤? ep ! "at") ≡ ok true)
    × (root : Value) × ((g.snapshot ! "trust_bundle" !! "root_public_key") ≡ ok root)
    × (command : Value) × (ep ! "command" ≡ ok command)
    × (cp : Value) × (unseal env command (txt "WHP-REGISTRY-COMMAND-v1") root ≡ ok cp)
    × Equals cp "expected_previous_hash" previous
    × (agree_all cp ep ("purchase_id" ∷ "status" ∷ "reason" ∷ "at" ∷ []) ≡ ok true)

-- Events that are numbered from `i`, each signed by a registry of the scope at its own time, and each
-- naming the hash of the one before it.
abbrev pub IsHistory : Env → Registry → ℕ → Value → Option Value → List Value → Type 0
IsHistory env g i previous last [] = Unit
IsHistory env g i previous last (e ∷ es) =
    (ep : Value) × (e ! "payload" ≡ ok ep)
    × (bounds : Value) × ((g.result ! "submission" !! "bounds") ≡ ok bounds)
    × (time : Value) × (ep ! "at" ≡ ok time)
    × (c : Value) × (grant env g.admitted.keys g.admitted.revocations e
          (txt "WHP-REGISTRY-EVENT-v1") "REGISTRY" bounds time
        ≡ ok c)
    × Equals ep "sequence" (int (pos i))
    × Equals ep "previous_hash" previous
    × (agree ep g.result "purchase_id" ≡ ok true)
    × Follows env g previous last ep
    × (h : Text) × (digest env e ≡ ok h)
    × IsHistory env g (suc i) (str h) (some ep) es

-- `last` is the payload of the last event, if there is one, and else what it was before.
abbrev pub IsLast : Option Value → List Value → Option Value → Type 0
IsLast before [] last = last ≡ before
IsLast before (e ∷ es) last = (ep : Value) × (e ! "payload" ≡ ok ep) × IsLast (some ep) es last

pub eq-Equals : (x : Value) (k : String) (v : Value) → ((x ! k) =? ok v) ≡ ok true → Equals x k v
unfolding ◌=?◌
eq-Equals x k v h =
    let (w, found, rest) = bind-ok (x ! k) _ h in (w, found, ok-injective (unfold ◌>>=◌ in rest))

module _ (env : Env) (g : Registry) where
  check_step-Follows :
      (previous : Value) (last : Option Value) (ep : Value)
      → Ensures (check_step env g previous last ep) (λ _. Follows env g previous last ep)
  unfolding check_step check_origin check_command
  check_step-Follows previous none ep = Ensures-bind λ mark has_mark. Ensures-last _ λ h.
      let (recorded, rest) = and-true _ _ h in
      let (command, has_command, none_given) = bind-ok _ _ rest in
      (
        mark,
        has_mark,
        eq-Equals ep "status" _ recorded,
        command,
        has_command,
        ok-injective none_given,
      )
  check_step-Follows previous (some last) ep = Ensures-bind λ root has_root.
      Ensures-bind λ command has_command. Ensures-bind λ cp sealed. Ensures-check _ λ bound.
        Ensures-last _ λ h.
          let (named, repeats) = and-true _ _ bound in
          let (open_status, ordered) = and-true _ _ h in
          let (status, has_status, not_final) = bind-ok _ _ open_status in
          (
            status,
            has_status,
            not-true _ (ok-injective not_final),
            ordered,
            root,
            has_root,
            command,
            has_command,
            cp,
            sealed,
            eq-Equals cp "expected_previous_hash" previous named,
            repeats,
          )

  check_event-History :
      (chain : Chain) (e : Value)
      → Ensures (check_event env g chain e) (λ after.
        ((next : List Value)
          → IsHistory env g after.index after.previous after.last next
          → IsHistory env g chain.index chain.previous chain.last (e ∷ next))
        × (ep : Value) × (e ! "payload" ≡ ok ep)
        × (after.last ≡ some ep))
  unfolding check_event
  check_event-History chain e = Ensures-bind λ ep has_payload. Ensures-bind λ _ _.
      Ensures-bind λ bounds has_bounds. Ensures-bind λ time has_time. Ensures-bind λ c granted.
        Ensures-check _ λ linked. Ensures-bind λ _ stepped. Ensures-bind λ h hashed.
          let (numbered, rest) = and-true _ _ linked in
          let (previous, rest₁) = and-true _ _ rest in
          let (purchase, rest₂) = and-true _ _ rest₁ in
          let follows = (check_step-Follows chain.previous chain.last ep).at _ stepped in
          Ensures-ok _ (
            λ next rest₃. (
              ep,
              has_payload,
              bounds,
              has_bounds,
              time,
              has_time,
              c,
              granted,
              eq-Equals ep "sequence" _ numbered,
              eq-Equals ep "previous_hash" _ previous,
              purchase,
              follows,
              h,
              hashed,
              rest₃,
            ),
            ep,
            has_payload,
            refl,
          )

  pub check_events-IsHistory :
      (chain : Chain) (es : List Value)
      → Ensures (check_events env g chain es) (λ after.
        IsHistory env g chain.index chain.previous chain.last es × IsLast chain.last es after.last)
  unfolding check_events
  check_events-IsHistory chain [] = Ensures-ok chain (tt, refl)
  check_events-IsHistory chain (e ∷ es) = Ensures-bind λ after has_after.
      let (extend, ep, has_payload, same) = (check_event-History chain e).at after has_after in
      Ensures-map (check_events-IsHistory after es) λ final (history, ends).
        (extend es history, (ep, has_payload, subst (λ l. IsLast l es final.last) same ends))
