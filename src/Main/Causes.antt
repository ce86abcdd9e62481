-- ===== src/Main/Causes.antt =====
-- What may end a run of `main` in verify/verify_mark.py: the step that raised, after those before it had
-- returned.
use whpstanding.Prelude.{◌≡◌, true, false, Option, none, some}
use whpstanding.Result.{Fault, value_error, ok, err}
use whpstanding.Text.{Bytes}
use whpstanding.Value.{Value, txt}
use whpstanding.Env.{Env}
use whpstanding.Mark
use whpstanding.Mark.{verify_result}
use whpstanding.Discovery.Resolution.{verify_resolution_only}
use whpstanding.Main.{Arguments, at_or_now}
use whpstanding.Main.Asked.{Discovers, DiscoveryRaises, Checks, RegistryRaises, ChainRaises}

module _ (env : Env) (args : Arguments) where
  -- The file of the mark was read, and its result was verified.
  pub record Begun : Type 0 where
    pub e : Value
    pub raw : Bytes
    pub given : args.mark ≡ ok (e, raw)
    pub mode : args.resolution_only ≡ false
    pub r : Mark.Report
    pub ran : verify_result env e args.root_pin args.allow_test ≡ ok r

  -- Nothing was verified: the file of the mark or of the contract was not read, no contract was named,
  -- or the verification of the result, or of the resolution on its own, raised.
  pub data Early : Fault → Type 0 where
    unread : {fault : Fault} → args.mark ≡ err fault → Early fault
    unverified :
        {fault : Fault} (e : Value) (raw : Bytes)
        → args.mark ≡ ok (e, raw)
        → args.resolution_only ≡ false
        → verify_result env e args.root_pin args.allow_test ≡ err fault
        → Early fault
    unnamed :
        (e : Value) (raw : Bytes)
        → args.mark ≡ ok (e, raw)
        → args.resolution_only ≡ true
        → args.contract ≡ none
        → Early (value_error "IMMUTABLE_CONTRACT_REQUIRED")
    uncontracted :
        {fault : Fault} (e : Value) (raw : Bytes)
        → args.mark ≡ ok (e, raw)
        → args.resolution_only ≡ true
        → args.contract ≡ some (err fault)
        → Early fault
    unlocated :
        {fault : Fault} (e : Value) (raw : Bytes) (document : Value) (bytes : Bytes)
        → args.mark ≡ ok (e, raw)
        → args.resolution_only ≡ true
        → args.contract ≡ some (ok (document, bytes))
        → verify_resolution_only env e document args.root_pin args.allow_test
            (at_or_now args.at (args.clock 0))
          ≡ err fault
        → Early fault

  -- A result was verified, and the first step behind it that raised is this one.
  pub data Late : Fault → Type 0 where
    at_discovery : {fault : Fault} (b : Begun) → DiscoveryRaises env args b.e fault → Late fault
    at_registry :
        {fault : Fault} (b : Begun) (shown : Option Value)
        → Discovers env args b.e shown
        → RegistryRaises env args b.e b.raw fault
        → Late fault
    at_chain :
        {fault : Fault} (b : Begun) (shown : Option Value) (standing : Value)
        → Discovers env args b.e shown
        → Checks env args b.e b.raw (txt "NOT_CHECKED") standing
        → ChainRaises env args b.e fault
        → Late fault
