-- ===== src/ColdAgent/Action.antt =====
-- What the methods of `Reader` in scripts/cold-agent.py do: they change the reader, return or raise,
-- and what they changed stays changed when they raise.
use whpstanding.Prelude.{ℕ, ℤ, Bool, List, Option}
use whpstanding.Result.{Fault, Result, ok, err}
use whpstanding.Text.{Text, Bytes}
use whpstanding.Dict.{Dict}
use whpstanding.Value.{Value, int}
use whpstanding.Env.{Env}
use whpstanding.ColdAgent.Reader.{Network, Reader}

-- What `docker run` leaves: its exit status and its output.
pub record Ran : Type 0 where
  pub status : ℕ
  pub output : Bytes

-- A key that `Ed25519PrivateKey.generate()` made: its public bytes, and `sign`.
pub record KeyPair : Type 0 where
  pub spki : Bytes
  pub sign : Bytes → Bytes

-- The libraries and the system that the reader calls: those of `Env`, the network, `json.loads` with
-- the hooks of `parse`, `check_schema`, `urllib.parse.quote(x, safe='')` and `urlencode`,
-- `int(time.time())`, new keys and tokens, the image of the sandbox if it is there, and `docker run`
-- with options on files and arguments. What changes from call to call depends on the reader.
pub record Agent : Type 0 where
  pub env : Env
  pub net : Network
  pub loads : Bytes → Result Value
  pub is_schema : Value → Bool
  pub quote : Value → Result Text
  pub urlencode : List (Text × Value) → Text
  pub clock : Reader → ℤ
  pub new_key : Reader → KeyPair
  pub token : Reader → ℕ → Text
  pub image : Option Text
  pub container : List Text → Dict Bytes → List Value → Result Ran

abbrev pub Action {ℓ} : Type ℓ → Type ℓ
Action A = Reader → Result A × Reader

module _ {ℓ κ} {A : Type ℓ} {B : Type κ} where
  unfoldable pub go_on : Result A × Reader → (A → Action B) → Result B × Reader
  go_on (ok a, r) f = f a r
  go_on (err e, r) f = (err e, r)

  -- `try` with its `except`: what was changed before the fault stays changed.
  unfoldable pub recover :
      Result A × Reader → (A → Action B) → (Fault → Action B) → Result B × Reader
  recover (ok a, r) f next = f a r
  recover (err e, r) f next = next e r

  infixl 1 ◌>>=◌ ◌>>◌
  unfoldable pub ◌>>=◌ : Action A → (A → Action B) → Action B
  unfolding go_on
  (m >>= f) r = go_on (m r) f

  abbrev pub ◌>>◌ : Action A → Action B → Action B
  m >> n = m >>= λ _. n

module _ {ℓ} {A : Type ℓ} where
  -- what changes nothing
  unfoldable pub lift : Result A → Action A
  lift m r = (m, r)

  unfoldable pub settle : Result (A × Reader) → Reader → Result A × Reader
  settle (ok (a, r')) r = (ok a, r')
  settle (err e) r = (err e, r)

  -- what raises before it changes anything
  unfoldable pub step : (Reader → Result (A × Reader)) → Action A
  unfolding settle
  step f r = settle (f r) r

-- `int(time.time())`
unfoldable pub now : Agent → Action Value
now agent r = (ok (int (agent.clock r)), r)
