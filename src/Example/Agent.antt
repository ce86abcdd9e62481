-- ===== src/Example/Agent.antt =====
-- The reader of scripts/cold-agent.py on a sample network, and the theorems applied to it.
use whpstanding.Prelude.{◌≡◌, refl, true, List, [], none, ◌∷◌, All, length, ◌≤◌}
use whpstanding.Result.{value_error, ok, err}
use whpstanding.Text.{Text, lit}
use whpstanding.Dict.{Dict}
use whpstanding.Value.{Value, txt, list}
use whpstanding.Env.{Url}
use whpstanding.Discovery.Location.{split_url}
use whpstanding.ColdAgent.Reader.{
  Response, answered, redirected, Network, Reader, fresh_reader, is_anonymous, admit, request,
}
use whpstanding.ColdAgent.Reader.Safe.{
  IsKnown, invocation-IsKnown, IsAdmitted, IsGuarded, admit-IsGuarded, request-IsAdmitted,
}
use whpstanding.ColdAgent.Reader.Admits.{Admits}
use whpstanding.Example.World.{force, env}
use whpstanding.Example.RunningAgent.{running_agent}

abbrev replacements : Dict Value
replacements = (lit "{mark}", txt "/input/artifact.json") ∷ []

abbrev template : Value
template = list (txt "{mark}" ∷ txt "--allow-test" ∷ [])

abbrev arguments : List Value
arguments = txt "/input/artifact.json" ∷ txt "--allow-test" ∷ []

invocation-IsKnown_example : All (IsKnown replacements) arguments × (length arguments ≤ 16)
unfolding running_agent
invocation-IsKnown_example = invocation-IsKnown replacements template arguments refl

abbrev answer : Response
answer = record { status = 200; headers = []; body = 1 ∷ [] }

abbrev network : Network
network = λ trace asked. ok (answered answer)

abbrev location : Value
location = txt "https://example.org/"

abbrev admitted : (Text × Text) × Reader
admitted = force ((lit "", lit ""), fresh_reader) (admit env network location fresh_reader)

was_admitted : admit env network location fresh_reader ≡ ok admitted
unfolding running_agent
was_admitted = refl

guarded : IsGuarded env admitted.1
guarded =
    let (fit, all_fit, same) =
      admit-IsGuarded env network location fresh_reader admitted.0 admitted.1 tt was_admitted in
    all_fit

abbrev after : Response × Reader
after = force (answer, fresh_reader) (request env network location (lit "GET") none [] admitted.1)

request-IsAdmitted_example :
    (u : Url) × (split_url env location ≡ ok u)
    × IsAdmitted env (u.scheme, u.netloc)
    × (is_anonymous u ≡ true)
    × IsGuarded env after.1
    × (length after.0.body ≤ 2000000)
unfolding running_agent
request-IsAdmitted_example =
    request-IsAdmitted env network location admitted.1 (lit "GET") none [] after.0 after.1 guarded
      refl

-- a redirect is an error
redirect_test :
    request env
      (λ trace asked. ok (redirected (lit "https://example.com/")))
      location
      (lit "GET")
      none
      []
      admitted.1
    ≡ err (value_error "REDIRECT_NOT_ALLOWED")
unfolding running_agent
redirect_test = refl
