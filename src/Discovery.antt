-- ===== src/Discovery.antt =====
-- `verify_discovery`, `verify_resolution` and `verify_resolution_only` of verify/verify_mark.py: where
-- a result says that its service is found, and the service's own signed and current word on it.
pub mod Location
pub mod Resolution
use whpstanding.Prelude.{
  Bool, true, false, not, ◌&&◌, ◌||◌, String, List, [], ◌∷◌, ◌++◌, Option, none, some,
}
use whpstanding.Result.{Result, ok, ◌>>=◌, ◌>>◌, need, ◌and◌}
use whpstanding.Text.{Text, lit, text_eq}
use whpstanding.Value.{Value, str, txt, ◌!◌, ◌!!◌, exact, as_text, value_eq}
use whpstanding.Compare.{◌=?◌, const, text}
use whpstanding.Env.{Env, Url, key_id}
use Location.{is_admitted_origin, is_plain_location, split_url}

module _ (env : Env) where
  unfoldable pub verify_discovery : Value → Result (Unit {0})
  verify_discovery p = do
    x ← p ! "discovery"
    u ← split_url env (← x ! "resolution_url")
    exact x (
        "version" ∷ "capability_id" ∷ "capability_class" ∷ "resolution_id" ∷ "resolution_url"
        ∷ "root_key_id" ∷ "status_id" ∷ [])
    need
        (← (x ! "version" =? const "WHP-STANDING-DISCOVERY-IDENTITY-v1")
          and (x ! "capability_id" =? const "urn:whp:standing:capability:1")
          and (x ! "capability_class" =? const "urn:capability:machine-verifiable-standing:1")
          and (x ! "resolution_id" =? const "urn:whp:standing:resolution:1"))
        "DISCOVERY_IDENTITY"
    environment ← p ! "environment"
    need (is_admitted_origin u environment) "RESOLUTION_ORIGIN"
    need (is_plain_location u) "RESOLUTION_LOCATION"
    root ← key_id env (← p ! "authority" !! "root_public_key")
    need (← x ! "root_key_id" =? text root) "DISCOVERY_ROOT_BINDING"
    purchase ← as_text (← p ! "purchase_id")
    need (← x ! "status_id" =? text (lit "urn:whp:standing:status:" ++ purchase))
        "STATUS_ID_BINDING"
