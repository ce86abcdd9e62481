-- ===== src/Example/Need.antt =====
-- A need that is taken to a catalog with one candidate, whose resolution cannot be read, and an
-- envelope that both programs accept.
use whpstanding.Prelude.{◌≡◌, refl, true, List, ◌⊎◌, [], ◌∷◌, some, All, length, pos, if◌then◌else◌}
use whpstanding.Result.{ok}
use whpstanding.Text.{Bytes, lit, text_eq}
use whpstanding.Value.{Value, bool, obj, txt, dict, list}
use whpstanding.Envelope.{unseal}
use whpstanding.ColdAgent.{signature}
use whpstanding.ColdAgent.Agrees.{standard_recipe, unseal-signature}
use whpstanding.ColdAgent.Reader.{answered, fresh_reader}
use whpstanding.ColdAgent.Reader.Safe.{Visited}
use whpstanding.ColdAgent.Action.{Agent}
use whpstanding.ColdAgent.Run.{run}
use whpstanding.ColdAgent.Needs.{try_all}
use whpstanding.ColdAgent.Attempts.{Taken, Exhausted, try_all-Taken}
use whpstanding.ColdAgent.Keeps.Whole.{run-Visited}
use whpstanding.Example.World.{env, authority, seal}
use whpstanding.Example.Documents.{node_payload}
use whpstanding.Example.RunningAgent.{running_agent}

abbrev capability : Value
capability = obj (dict (("id", txt "c") ∷ ("requirements", list (txt "signed" ∷ [])) ∷ []))

abbrev need_document : Value
need_document = obj (
    dict (
      ("object", obj (dict (("id", txt "o") ∷ ("version", txt "1") ∷ [])))
      ∷ (
        "action",
        obj (
            dict
              (("scope", txt "s") ∷ ("jurisdiction", txt "j") ∷ ("operation", txt "INFORM") ∷ [])),
      )
      ∷ (
        "need_interface",
        obj (
            dict (
              ("vendor_neutral", bool true)
              ∷ ("version", txt "1")
              ∷ ("capability", capability)
              ∷ (
                "catalog",
                obj (
                    dict (
                      ("interface", txt "capability-catalog-v1")
                      ∷ ("url", txt "https://example.org/catalog")
                      ∷ [])),
              )
              ∷ [])),
      )
      ∷ []))

abbrev directory : Value
directory = obj (
    dict (
      ("interface", txt "capability-catalog-v1")
      ∷ (
        "providers",
        list (
            obj (
              dict (
                ("id", txt "provider")
                ∷ ("capability_class", txt "c")
                ∷ ("properties", list (txt "signed" ∷ []))
                ∷ ("scopes", list (txt "s" ∷ []))
                ∷ ("jurisdictions", list (txt "j" ∷ []))
                ∷ ("resolution_url", txt "https://example.org/resolution")
                ∷ []))
            ∷ []),
      )
      ∷ []))

-- The one byte of a file says which document it is.
abbrev load : Bytes → Value
load bytes = if text_eq bytes (1 ∷ []) then need_document else directory

abbrev agent : Agent
agent = record {
  env = env;
  net = λ trace asked. ok (answered (record { status = 200; headers = []; body = 2 ∷ [] }));
  loads = λ bytes. ok (load bytes);
  is_schema = λ rules. true;
  quote = λ v. ok [];
  urlencode = λ fields. lit "q";
  clock = λ r. pos 500;
  new_key = λ r. record { spki = []; sign = λ message. message };
  token = λ r n. [];
  image = some (lit "image");
  container = λ options files arguments. ok (record { status = 0; output = 2 ∷ [] });
}

run-Visited_example : All (Visited env) (run agent (1 ∷ []) fresh_reader).1.trace
run-Visited_example = run-Visited agent (1 ∷ [])

-- the catalog and the resolution of the candidate were both asked for
run_test : length (run agent (1 ∷ []) fresh_reader).1.trace ≡ 2
unfolding running_agent
run_test = refl

abbrev requirements : Value
requirements = txt "requirements"

-- a candidate with no location, and one whose resolution cannot be read
abbrev candidates : List Value
candidates =
    obj (dict (("id", txt "nowhere") ∷ []))
    ∷ obj (dict (("resolution_url", txt "https://example.org/resolution") ∷ []))
    ∷ []

try_all-Taken_example :
    Taken agent requirements requirements requirements candidates fresh_reader
      (try_all agent requirements requirements requirements candidates [] fresh_reader)
      []
    ⊎ Exhausted agent requirements requirements requirements candidates fresh_reader
        (try_all agent requirements requirements requirements candidates [] fresh_reader)
try_all-Taken_example =
    try_all-Taken agent requirements requirements requirements candidates fresh_reader

abbrev attestation : Value
attestation = seal authority "WHP-SOURCE-ATTESTATION-v1" (node_payload "a")

unseal_test :
    unseal env attestation (txt "WHP-SOURCE-ATTESTATION-v1") (txt authority) ≡ ok (node_payload "a")
unfolding running_agent
unseal_test = refl

unseal-signature_example :
    signature env attestation (txt authority) standard_recipe (txt "WHP-SOURCE-ATTESTATION-v1")
    ≡ ok (node_payload "a")
unseal-signature_example =
    unseal-signature env attestation (txt "WHP-SOURCE-ATTESTATION-v1") (txt authority)
      (node_payload "a") unseal_test
