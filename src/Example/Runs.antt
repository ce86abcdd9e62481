-- ===== src/Example/Runs.antt =====
-- `assess` of verify/verify_mark.py on the sample documents, and the theorems applied to that run.
use whpstanding.Prelude.{
  ◌≡◌, refl, true, false, pos, List, [], ◌∷◌, ◌↔◌, ℤ, All, ◌≤ℤ◌, max_ℤ, ◌+ℤ◌, some,
}
use whpstanding.Value.{Value, null, txt, ◌!◌, iterate}
use whpstanding.Text.{Text, lit}
use whpstanding.Result.{ok, ◌>>=◌}
use whpstanding.Dict.{Dict, has_text}
use whpstanding.Shape.{ops}
use whpstanding.Assess.Trace.{as_int}
use whpstanding.Trust.{Trust, trust, grant}
use whpstanding.Trust.Admitted.{Admitted, trust-Admitted}
use whpstanding.Trust.Granted.{IsGranted, grant_iff}
use whpstanding.Graph.{Walk, visit_root, is_closed}
use whpstanding.Graph.Order.{Reach}
use whpstanding.Graph.Fuel.{visit_root-total}
use whpstanding.Graph.Closure.{IsClosed, is_closed_iff, is_closed-acyclic}
use whpstanding.Assess.{Assessment, assess}
use whpstanding.Assess.Verdict.{
  Grounds, established-Grounds, SourceAllows, TransitionAllows, EndsBy, permitted_ceiling,
  expiry_limits,
}
use whpstanding.Example.World.{force, env, profile, authority, seal}
use whpstanding.Example.Documents.{num, bundle, submission, pin, node_payload, bounds}
use whpstanding.Example.Running.{running}

abbrev none_yet : Assessment
none_yet = record {
  established = false;
  permitted = [];
  checks = [];
  expiry = pos 0;
  components = null;
}

abbrev outcome : Assessment
outcome = force none_yet (assess env submission bundle pin (num 500) profile)

ran : assess env submission bundle pin (num 500) profile ≡ ok outcome
unfolding running
ran = refl

established-Grounds_example : Grounds env submission bundle pin (num 500) profile outcome
unfolding running
established-Grounds_example =
    established-Grounds env submission bundle pin (num 500) profile outcome ran refl

permitted_ceiling_example :
    (outcome.established ≡ true)
    × (has_text (lit "INFORM") ops ≡ true)
    × ((nodes : List Value) × ((submission ! "nodes" >>= iterate) ≡ ok nodes)
        × All (SourceAllows (lit "INFORM")) nodes)
    × ((transitions : List Value) × ((submission ! "transitions" >>= iterate) ≡ ok transitions)
        × All (TransitionAllows (lit "INFORM")) transitions)
unfolding running
permitted_ceiling_example =
    permitted_ceiling env submission bundle pin (num 500) profile outcome ran (lit "INFORM") refl

expiry_limits_example :
    ((until : ℤ) × ((submission ! "bounds" >>= λ b. b ! "valid_until" >>= as_int) ≡ ok until)
      × (outcome.expiry ≤ℤ max_ℤ (pos 0) until))
    × ((now seconds : ℤ) × (as_int (num 500) ≡ ok now)
        × ((profile ! "max_validity_seconds" >>= as_int) ≡ ok seconds)
        × (outcome.expiry ≤ℤ max_ℤ (pos 0) (now +ℤ seconds)))
    × ((nodes : List Value) × ((submission ! "nodes" >>= iterate) ≡ ok nodes)
        × All (EndsBy outcome.expiry) nodes)
    × ((transitions : List Value) × ((submission ! "transitions" >>= iterate) ≡ ok transitions)
        × All (EndsBy outcome.expiry) transitions)
expiry_limits_example = expiry_limits env submission bundle pin (num 500) profile outcome ran

-- the outcome expires with the bounds, and the unknown of the nodes blocks RECOMMEND
outcome_test : (outcome.expiry ≡ pos 1500) × (outcome.permitted ≡ lit "INFORM" ∷ [])
unfolding running
outcome_test = (refl, refl)

-- a graph of three nodes, in which `c` is composed of the other two
abbrev three : List Text
three = lit "a" ∷ lit "b" ∷ lit "c" ∷ []

abbrev composed : Dict (List Text)
composed = (lit "c", lit "a" ∷ lit "b" ∷ []) ∷ []

is_closed_iff_example :
    (is_closed three composed (lit "c") ≡ true) ↔ IsClosed three composed (lit "c")
unfolding running
is_closed_iff_example = is_closed_iff three composed (lit "c") (refl, (refl, (refl, tt)))

is_closed-acyclic_example : ¬ Reach composed (lit "a") (lit "c")
unfolding running
is_closed-acyclic_example =
    is_closed-acyclic three composed (lit "c") (lit "c") (lit "a") refl refl refl

visit_root-total_example :
    (w : Walk) × (visit_root three composed (lit "c") ≡ some w) × (w.visiting ≡ [])
visit_root-total_example = visit_root-total three composed (lit "c")

abbrev nobody : Trust
nobody = record { profile = null; keys = []; revocations = [] }

abbrev admitted : Trust
admitted = force nobody (trust env bundle pin (num 500))

abbrev node : Value
node = seal authority "WHP-SOURCE-ATTESTATION-v1" (node_payload "a")

abbrev certificate : Value
certificate = force null (
    grant env admitted.keys admitted.revocations node (txt "WHP-SOURCE-ATTESTATION-v1") "SOURCE"
      bounds (num 500))

grant_iff_example :
    (grant env admitted.keys admitted.revocations node
        (txt "WHP-SOURCE-ATTESTATION-v1")
        "SOURCE"
        bounds
        (num 500)
      ≡ ok certificate)
    ↔ IsGranted env admitted.keys admitted.revocations node
        (txt "WHP-SOURCE-ATTESTATION-v1")
        "SOURCE"
        bounds
        (num 500)
        certificate
grant_iff_example =
    grant_iff env admitted.keys admitted.revocations node (txt "WHP-SOURCE-ATTESTATION-v1") "SOURCE"
      bounds (num 500) certificate

grant_test : certificate ! "subject" ≡ ok (txt "authority")
unfolding running
grant_test = refl

trusted : trust env bundle pin (num 500) ≡ ok admitted
unfolding running
trusted = refl

trust-Admitted_example : Admitted env bundle pin (num 500) admitted
trust-Admitted_example = trust-Admitted env bundle pin (num 500) admitted trusted
