-- ===== src/Example/Registry.antt =====
-- A mark with two registry events and a snapshot of them, and the theorems applied to it.
use whpstanding.Prelude.{ℕ, ◌≡◌, refl, false, [], ◌∷◌}
use whpstanding.Result.{ok}
use whpstanding.Text.{lit}
use whpstanding.Value.{Value, null, obj, txt, dict, list, ◌!◌}
use whpstanding.Compare.{◌≤?◌}
use whpstanding.Registry.{verify_registry}
use whpstanding.Registry.Regranted.{Regranted}
use whpstanding.Registry.History.{Equals}
use whpstanding.Registry.Status.{Reported, verify_registry-Reported, registry_active}
use whpstanding.Example.World.{env, root, authority, seal}
use whpstanding.Example.Documents.{num, hash_of, pin, bundle, submission}
use whpstanding.Example.Running.{running}

abbrev mark : Value
mark = seal authority "WHP-STANDING-MARK-v1" (
    obj (
      dict (
        ("purchase_id", txt "p")
        ∷ ("mark_id", txt "WHP-SM-p")
        ∷ ("submission", submission)
        ∷ ("expires_at", num 1500)
        ∷ [])))

abbrev event : ℕ → Value → ℕ → Value → Value
event sequence previous time command = seal authority "WHP-REGISTRY-EVENT-v1" (
    obj (
      dict (
        ("purchase_id", txt "p")
        ∷ ("sequence", num sequence)
        ∷ ("previous_hash", previous)
        ∷ ("result_hash", txt "r")
        ∷ ("mark_id", txt "WHP-SM-p")
        ∷ ("status", txt "ACTIVE")
        ∷ ("at", num time)
        ∷ ("reason", txt "reviewed")
        ∷ ("command", command)
        ∷ [])))

abbrev issued : Value
issued = event 0 null 500 null

abbrev reviewed : Value
reviewed = event 1 (hash_of issued) 550 (
    seal root "WHP-REGISTRY-COMMAND-v1" (
      obj (
        dict (
          ("expected_previous_hash", hash_of issued)
          ∷ ("purchase_id", txt "p")
          ∷ ("status", txt "ACTIVE")
          ∷ ("reason", txt "reviewed")
          ∷ ("at", num 550)
          ∷ []))))

abbrev snapshot : Value
snapshot = seal authority "WHP-REGISTRY-SNAPSHOT-v1" (
    obj (
      dict (
        ("purchase_id", txt "p")
        ∷ ("result_hash", txt "r")
        ∷ ("mark_id", txt "WHP-SM-p")
        ∷ ("status", txt "ACTIVE")
        ∷ ("observed_at", num 600)
        ∷ ("valid_until", num 800)
        ∷ ("events", list (issued ∷ reviewed ∷ []))
        ∷ ("trust_bundle", bundle)
        ∷ [])))

verify_registry_test : verify_registry env snapshot mark (lit "r") pin (num 600) ≡ ok (txt "ACTIVE")
unfolding running
verify_registry_test = refl

verify_registry-Reported_example : Reported env snapshot mark (lit "r") pin (num 600) (txt "ACTIVE")
verify_registry-Reported_example =
    verify_registry-Reported env snapshot mark (lit "r") pin (num 600) (txt "ACTIVE")
      verify_registry_test

registry_active_example :
    (r : Reported env snapshot mark (lit "r") pin (num 600) (txt "ACTIVE")) × Equals r.last "status"
      (txt "ACTIVE")
    × ((r.p ! "expires_at" ≤? ok (num 600)) ≡ ok false)
    × Regranted env
        (record { result = r.p; snapshot = r.sp; admitted = r.admitted })
        (num 600)
        r.bounds
        mark
unfolding running
registry_active_example =
    registry_active env snapshot mark (lit "r") pin (num 600) (txt "ACTIVE") verify_registry_test
      refl
