-- ===== src/Example/Documents.antt =====
-- The documents of the example: a trust bundle, and a submission of two nodes with a transition that
-- copies the first to the second.
use whpstanding.Prelude.{ℕ, Bool, String, [], ◌∷◌, pos}
use whpstanding.Text.{Text, lit}
use whpstanding.Value.{Value, null, bool, int, str, obj, txt, dict, list}
use whpstanding.Env.{digest}
use whpstanding.Trust.{profile_hash, contract_hash}
use whpstanding.Example.World.{force, toy_hash, env, root, authority, seal}

abbrev pub num : ℕ → Value
num n = int (pos n)

abbrev pub hash_of : Value → Value
hash_of v = str (force [] (digest env v))

abbrev pub pin : Text
pin = toy_hash (lit root)

abbrev pub all_ops : Value
all_ops = list (txt "INFORM" ∷ txt "RECOMMEND" ∷ [])

abbrev pub authorization : Value
authorization = seal root "WHP-PROFILE-AUTHORIZATION-v1" (
    obj (
      dict (
        ("profile_hash", str profile_hash)
        ∷ ("contract_hash", str contract_hash)
        ∷ ("verifier_sha256", str (toy_hash (lit "source")))
        ∷ ("ratified", bool Bool.true)
        ∷ ("issuer", txt "Test Issuer")
        ∷ ("environment", txt "TEST")
        ∷ ("valid_from", num 0)
        ∷ ("valid_until", num 5000)
        ∷ [])))

abbrev pub certificates : Value
certificates = list (
    seal root "WHP-AUTHORITY-CERTIFICATE-v1" (
      obj (
        dict (
          ("public_key", txt authority)
          ∷ ("subject", txt "authority")
          ∷ (
            "roles",
            list (
                txt "SOURCE"
                ∷ txt "TRANSITION"
                ∷ txt "ISSUER"
                ∷ txt "REGISTRY"
                ∷ txt "DISCOVERY"
                ∷ []),
          )
          ∷ ("scopes", list (txt "s" ∷ []))
          ∷ ("jurisdictions", list (txt "j" ∷ []))
          ∷ ("operations", all_ops)
          ∷ ("profile_hash", str profile_hash)
          ∷ ("valid_from", num 0)
          ∷ ("valid_until", num 4000)
          ∷ [])))
    ∷ [])

abbrev pub bundle : Value
bundle = obj (
    dict (
      ("root_public_key", txt root)
      ∷ ("profile_authorization", authorization)
      ∷ ("certificates", certificates)
      ∷ ("revocations", list [])
      ∷ (
        "status_snapshot",
        seal root "WHP-TRUST-STATUS-v1" (
            obj (
              dict (
                ("sequence", num 0)
                ∷ ("previous_hash", null)
                ∷ ("profile_authorization_hash", hash_of authorization)
                ∷ ("certificates_hash", hash_of certificates)
                ∷ ("revocations_hash", hash_of (list []))
                ∷ ("valid_from", num 0)
                ∷ ("valid_until", num 3000)
                ∷ []))),
      )
      ∷ []))

abbrev pub node_payload : String → Value
node_payload id = obj (
    dict (
      ("id", txt id)
      ∷ ("version", txt "1")
      ∷ ("content", txt "c")
      ∷ ("locator", txt "l")
      ∷ ("epistemic_status", txt "REPORT")
      ∷ ("qualifiers", list (txt "q" ∷ []))
      ∷ (
        "unknowns",
        list (
            obj (
              dict (
                ("id", txt "u")
                ∷ ("description", txt "d")
                ∷ ("blocks", list (txt "RECOMMEND" ∷ []))
                ∷ []))
            ∷ []),
      )
      ∷ ("operations", all_ops)
      ∷ ("scope", txt "s")
      ∷ ("jurisdiction", txt "j")
      ∷ ("valid_from", num 0)
      ∷ ("valid_until", num 2500)
      ∷ ("status", txt "ACTIVE")
      ∷ ("prior_hash", null)
      ∷ []))

abbrev pub nodes : Value
nodes = list (
    seal authority "WHP-SOURCE-ATTESTATION-v1" (node_payload "a")
    ∷ seal authority "WHP-SOURCE-ATTESTATION-v1" (node_payload "b")
    ∷ [])

abbrev pub transitions : Value
transitions = list (
    seal authority "WHP-TRANSITION-WARRANT-v1" (
      obj (
        dict (
          ("from", list (hash_of (node_payload "a") ∷ []))
          ∷ ("to", hash_of (node_payload "b"))
          ∷ ("transform", txt "COPY")
          ∷ ("operations", all_ops)
          ∷ ("scope", txt "s")
          ∷ ("jurisdiction", txt "j")
          ∷ ("valid_from", num 0)
          ∷ ("valid_until", num 2400)
          ∷ (
            "warrant",
            obj (
                dict (
                  ("statement", txt "copied")
                  ∷ ("evidence_hashes", list (hash_of (node_payload "a") ∷ []))
                  ∷ [])),
          )
          ∷ [])))
    ∷ [])

abbrev pub bounds : Value
bounds = obj (
    dict (
      ("scope", txt "s")
      ∷ ("jurisdiction", txt "j")
      ∷ ("valid_from", num 100)
      ∷ ("valid_until", num 2000)
      ∷ []))

abbrev pub submission : Value
submission = obj (
    dict (
      ("version", txt "WHP-STANDING-SUBMISSION-v1")
      ∷ ("client_reference", txt "reference-0123456789")
      ∷ ("buyer_key", txt "buyer")
      ∷ (
        "profile",
        obj (
            dict (
              ("id", txt "passage")
              ∷ ("version", txt "1.0.0")
              ∷ ("sha256", str profile_hash)
              ∷ [])),
      )
      ∷ (
        "object",
        obj (
            dict
              (("id", txt "b") ∷ ("version", txt "1") ∷ ("root", hash_of (node_payload "b")) ∷ [])),
      )
      ∷ ("bounds", bounds)
      ∷ ("requested_operation", txt "INFORM")
      ∷ ("nodes", nodes)
      ∷ ("transitions", transitions)
      ∷ []))
