-- ===== src/Main.antt =====
-- `main` of verify/verify_mark.py: the command line's run over the documents, with the report that it
-- prints and its exit status. What `read` returned for each file that was named is an input.
pub mod Asked
pub mod Causes
pub mod Refused
pub mod Steps
pub mod Finish
pub mod Outcome
use mathlib.Core.Option
use whpstanding.Prelude.{
  Bool, true, false, not, ◌&&◌, String, [], ◌∷◌, Option, none, some, ℤ, pos, eqb_ℤ, ℕ,
  if◌then◌else◌,
}
use whpstanding.Result.{Fault, Result, ok, err, ◌>>=◌, ◌>>◌, need}
use whpstanding.Text.{Text, Bytes, lit}
use whpstanding.Dict.{Dict, get, put}
use whpstanding.Value.{Value, bool, int, str, txt, ◌!◌, value_eq, obj, of_entries}
use whpstanding.Env.{Env}
use whpstanding.Mark.{verify_result}
use whpstanding.Mark
use whpstanding.Discovery.Resolution.{Resolved, verify_resolution, verify_resolution_only}
use whpstanding.Registry.{verify_registry}
use whpstanding.Finality.{Node, recheck_chain}

-- The parsed arguments. A file that was named comes as what `read` made of it: its document and its
-- bytes. `clock` is what `int(time.time())` gives at each place that asks for it.
pub record Arguments : Type 0 where
  pub mark : Result (Value × Bytes)
  pub root_pin : Text
  pub allow_test : Bool
  pub registry : Option (Result (Value × Bytes))
  pub resolution : Option (Result (Value × Bytes))
  pub contract : Option (Result (Value × Bytes))
  pub resolution_only : Bool
  pub at : Option ℤ
  pub rpc : Option (Text × Node)
  pub clock : ℕ → ℤ

-- What `main` leaves: the printed report, the exception that it caught, and the exit status.
pub record Exit : Type 0 where
  pub printed : Dict Value
  pub caught : Option Fault
  pub status : ℕ

-- `args.at or int(time.time())`
unfoldable pub at_or_now : Option ℤ → ℤ → Value
at_or_now none now = int now
at_or_now (some t) now = if eqb_ℤ t (pos 0) then int now else int t

-- `report[k] = v`
abbrev pub set_field : String → Value → Dict Value → Dict Value
set_field k v report = put (lit k) v report

-- `'VERIFIED' == report.get(k)` and the like
unfoldable pub field_is : Option Value → Value → Bool
field_is none v = false
field_is (some w) v = value_eq w v

-- The handler: the report as far as it came, marked as failed. The text of the error is `caught`.
unfoldable pub failed : Fault → Dict Value → Exit
failed fault partial =
    let marked =
      set_field "live_completion_verified" (bool false)
        (set_field "verified" (bool false) partial) in
    record {
      printed =
          if field_is (get (lit "historical_issuance") marked) (txt "VERIFIED")
          then set_field "current_standing" (txt "NOT_VERIFIED") marked
          else marked;
      caught = some fault;
      status = 1;
    }

-- A step that may raise, with the report as it is then.
unfoldable pub attempt {ℓ} : {A : Type ℓ} → Result A → Dict Value → (A → Exit) → Exit
attempt (ok a) report k = k a
attempt (err fault) report k = failed fault report

unfoldable pub read_named : Option (Result (Value × Bytes)) → Result (Value × Bytes)
read_named none = need false "IMMUTABLE_CONTRACT_REQUIRED" >> err Fault.key_error
read_named (some file) = file

-- what `verify_result` returned, as the dict that `main` goes on with
unfoldable pub result_report : Mark.Report → Dict Value
result_report r =
    (lit "verified", bool r.verified)
    ∷ (lit "cryptographic_integrity", txt "VERIFIED")
    ∷ (lit "evaluation_replay", txt "VERIFIED")
    ∷ (lit "environment", r.environment)
    ∷ (lit "purchase_id", str r.purchase_id)
    ∷ (lit "mark_id", r.mark_id)
    ∷ (lit "assessment", r.assessment)
    ∷ (lit "current_standing", r.current_standing)
    ∷ (lit "payment_chain_finality", r.payment_chain_finality)
    ∷ (lit "expires_at", r.expires_at)
    ∷ []

unfoldable pub resolved_report : Resolved → Dict Value
resolved_report r =
    (lit "verified", bool true)
    ∷ (lit "resolution_id", r.resolution_id)
    ∷ (lit "capability_id", r.capability_id)
    ∷ (lit "service_origin", r.service_origin)
    ∷ (lit "observed_at", r.observed_at)
    ∷ (lit "valid_until", r.valid_until)
    ∷ []

-- `if args.x: report[key] = …`
unfoldable pub optional : Option (Result Value) → String → Dict Value → (Dict Value → Exit) → Exit
optional none key report k = k report
optional (some m) key report k = attempt m report (λ v. k (set_field key v report))

unfoldable pub printed : Dict Value → Exit
printed report = record { printed = report; caught = none; status = 0 }

-- `technical_live_issuance_verified`
unfoldable pub is_technically_live : Dict Value → Bool
is_technically_live report =
    field_is (get (lit "environment") report) (txt "LIVE")
    && not (field_is (get (lit "mark_id") report) Value.null)
    && field_is (get (lit "current_standing") report) (txt "ACTIVE")
    && field_is (get (lit "payment_chain_finality") report)
        (txt "FINALIZED_RECHECKED_AGAINST_SUPPLIED_RPC")

unfoldable pub finish : Dict Value → Exit
finish report =
    let live = bool (is_technically_live report) in
    printed (
      set_field "live_completion_verified" (bool false) (
        set_field "outside_buyer_relationship" (txt "NOT_ESTABLISHED_BY_THIS_VERIFIER")
          (set_field "technical_live_issuance_verified" live report)))

module _ (env : Env) (args : Arguments) where
  unfoldable pub discovery_step : Value → Option (Result Value)
  discovery_step e =
      Option.map
        (λ file. do
          (document, raw) ← file
          r ← verify_resolution env document e args.root_pin (at_or_now args.at (args.clock 0))
          ok (obj (of_entries (resolved_report r))))
        args.resolution

  unfoldable pub registry_step : Value → Bytes → Option (Result Value)
  registry_step e raw =
      Option.map
        (λ file. do
          (document, _) ← file
          verify_registry env document e (env.sha256 raw) args.root_pin
              (at_or_now args.at (args.clock 1)))
        args.registry

  unfoldable pub chain_step : Value → Option (Result Value)
  chain_step e = Option.map (λ (url, node). do p ← e ! "payload"; recheck_chain node p url) args.rpc

  unfoldable pub verify_mark : Value → Bytes → Exit
  verify_mark e raw = attempt (verify_result env e args.root_pin args.allow_test) [] λ r.
      let report =
        set_field "institutional_root_admission" (txt "CALLER_SUPPLIED_PIN_REQUIRED")
          (set_field "historical_issuance" (txt "VERIFIED") (result_report r)) in
      optional (discovery_step e) "current_discovery" report λ report₁.
        optional (registry_step e raw) "current_standing" report₁
          λ report₂. optional (chain_step e) "payment_chain_finality" report₂ finish

  unfoldable pub verify_candidate : Value → Exit
  verify_candidate e =
      attempt
        (do
          (document, raw) ← read_named args.contract
          verify_resolution_only env e document args.root_pin args.allow_test
              (at_or_now args.at (args.clock 0)))
        []
        λ (r, environment). printed (
          set_field "live_completion_verified" (bool false) (
            set_field "institutional_root_admission" (txt "CALLER_SUPPLIED_PIN_REQUIRED") (
              set_field "current_standing" (txt "NOT_CHECKED") (
                set_field "historical_issuance" (txt "NOT_PRESENT")
                  (set_field "environment" environment (resolved_report r))))))

  unfoldable pub main : Exit
  main =
      attempt args.mark []
        λ (e, raw). if args.resolution_only then verify_candidate e else verify_mark e raw
