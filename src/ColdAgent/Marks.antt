-- ===== src/ColdAgent/Marks.antt =====
-- `Reader.verify_mark` of scripts/cold-agent.py, after the mark was read: its resolution, its status
-- and its verifier.
use whpstanding.Prelude.{none, some}
use whpstanding.Result.{ok}
use whpstanding.Text.{Bytes}
use whpstanding.Value.{Value, ◌!◌}
use whpstanding.ColdAgent.Action.{Agent, Action, ◌>>=◌, ◌>>◌, lift}
use whpstanding.ColdAgent.Resolve.{Resolution, resolve, fetch}
use whpstanding.ColdAgent.Sandbox.{ReadMark, read_mark, check_profile, registry_url, run_verifier}

-- What `verify_mark` returns: the mark and its meaning are in `read`.
pub record VerifiedMark : Type 0 where
  pub read : ReadMark
  pub resolved : Resolution
  pub report : Value
  pub sandbox : Value

unfoldable pub verify_mark : Agent → Bytes → Action VerifiedMark
verify_mark agent raw = do
  m ← lift (read_mark agent raw)
  url ← lift (m.identity ! "resolution_url")
  resolved ← resolve agent url (some m.identity) (some (m.document, m.verifier))
  lift (check_profile m resolved)
  status ← lift (registry_url agent m resolved)
  (registry, registry_raw) ← fetch agent status none
  (report, facts) ← lift (run_verifier agent raw m resolved registry_raw)
  lift (ok (record { read = m; resolved = resolved; report = report; sandbox = facts }))
