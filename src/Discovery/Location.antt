-- ===== src/Discovery/Location.antt =====
-- The tests on URLs that the verifiers of verify/verify_mark.py make.
use whpstanding.Prelude.{Bool, true, false, not, ◌&&◌, ◌||◌, [], ◌∷◌, Option, none, some}
use whpstanding.Result.{Result, ◌>>=◌}
use whpstanding.Text.{Text, lit, text_eq}
use whpstanding.Value.{Value, txt, as_text, value_eq}
use whpstanding.Env.{Env, Url}

-- `bool(t)` of a text that may be `None`
unfoldable pub given : Option Text → Bool
given none = false
given (some []) = false
given (some (c ∷ s)) = true

unfoldable pub is_host : Option Text → Text → Bool
is_host none t = false
is_host (some s) t = text_eq s t

-- `u.scheme == 'https' or environment == 'TEST' and u.scheme == 'http' and u.hostname == '127.0.0.1'`
unfoldable pub is_admitted_origin : Url → Value → Bool
is_admitted_origin u environment =
    text_eq u.scheme (lit "https")
    || (value_eq environment (txt "TEST")
        && text_eq u.scheme (lit "http")
        && is_host u.hostname (lit "127.0.0.1"))

-- `u.netloc and not u.username and not u.password and not u.query and not u.fragment`
unfoldable pub is_plain_location : Url → Bool
is_plain_location u =
    given (some u.netloc)
    && not (given u.username)
    && not (given u.password)
    && not (given (some u.query))
    && not (given (some u.fragment))

module _ (env : Env) where
  unfoldable pub split_url : Value → Result Url
  split_url v = do t ← as_text v; env.urlsplit t
