-- ===== src/ColdAgent/Reader/Admits.antt =====
-- Which URLs `Reader.admit` of scripts/cold-agent.py admits, and what the reader allows afterwards.
use whpstanding.Prelude.{◌≡◌, ◌≢◌, ◌⊎◌, true, [], ◌∷◌, none, some}
use whpstanding.Result.{ok}
use whpstanding.Text.{Text, lit}
use whpstanding.Value.{Value, str}
use whpstanding.Env.{Env, Url}
use whpstanding.ColdAgent.Reader.{Reader, is_allowed}

-- The parts of a URL that may be admitted.
pub record IsFit (u : Url) : Type 0 where
  pub secure :
      (u.scheme ≡ lit "https") ⊎ ((u.scheme ≡ lit "http") × (u.hostname ≡ some (lit "127.0.0.1")))
  pub located : u.netloc ≢ []
  pub no_user : (u.username ≡ none) ⊎ (u.username ≡ some [])
  pub no_password : (u.password ≡ none) ⊎ (u.password ≡ some [])
  pub no_fragment : u.fragment ≡ []

-- What `admit` did with the URL `url`: it took it apart, and allows its origin from now on.
pub record Admits (env : Env) (url : Value) (r : Reader) (o : Text × Text) (r' : Reader)
    : Type 0 where
  pub location : Text
  pub is_text : url ≡ str location
  pub parts : Url
  pub splits : env.urlsplit location ≡ ok parts
  pub origin : o ≡ (parts.scheme, parts.netloc)
  pub fit : IsFit parts
  pub allowed :
      ((is_allowed o r.allowed ≡ true) × (r'.allowed ≡ r.allowed)) ⊎ (r'.allowed ≡ o ∷ r.allowed)
  pub trace : r'.trace ≡ r.trace
