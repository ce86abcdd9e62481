-- ===== src/ColdAgent/Reader/Safe.antt =====
-- What the reader of scripts/cold-agent.py lets through: requests to admitted origins only, and no
-- argument of a downloaded verifier but those it knows.
use whpstanding.Prelude.{
  ◌∙◌, ◌++◌, suc, ◌≡◌, refl, sym, ap, subst, true, Bool-cases, ◌⊎◌, inl, inr, List, [], ◌∷◌, Option,
  none, some, All, length, ◌≤◌, arith,
}
use whpstanding.Result.{
  bind-ok, ok-injective, ok, Ensures, Ensures-bind, Ensures-need, Ensures-ok, Ensures-err,
  Ensures-map,
}
use whpstanding.Text.{text_eq, lit, Text, Bytes}
use whpstanding.Dict.{Dict, get}
use whpstanding.Dict.Laws.{text_eq_iff}
use whpstanding.Value.{
  as_text, ◌!◌, lookup, entries, found_or_missing, dict, Value, null, bool, int, str, arr, obj,
  items, contains_value,
}
use whpstanding.Env.{Env, Url}
use whpstanding.Discovery.Location.{given, split_url}
use whpstanding.ColdAgent.Reader.{
  trace_entry, Response, Network, Reader, origin_eq, is_allowed, allow, is_anonymous, is_secure,
  admit, request, allowed_options, replacement, expand_argument, expand_arguments, invocation,
}

-- What an argument of a downloaded verifier may be: a known option, or a value to replace.
abbrev pub IsKnown : Dict Value → Value → Type 0
IsKnown replacements v =
    (contains_value v allowed_options ≡ true) ⊎ ((k : Text) × (get k replacements ≡ some v))

module _ (replacements : Dict Value) where
  replacement-found :
      (arg : Value)
      → Ensures
          (replacement replacements arg)
          (λ f. (v : Value) → f ≡ some v → IsKnown replacements v)
  unfolding replacement
  replacement-found (str s) = Ensures-ok (get s replacements) (λ v e. inr (s, e))
  replacement-found (arr vs) = Ensures-err _
  replacement-found (obj fs) = Ensures-err _
  replacement-found null = Ensures-ok none (λ v e. cc)
  replacement-found (bool b) = Ensures-ok none (λ v e. cc)
  replacement-found (int n) = Ensures-ok none (λ v e. cc)

  expand_argument-IsKnown :
      (arg : Value) (found : Option Value)
      → ((v : Value) → found ≡ some v → IsKnown replacements v)
      → Ensures (expand_argument arg found) (IsKnown replacements)
  unfolding expand_argument
  expand_argument-IsKnown arg (some v) known = Ensures-ok v (known v refl)
  expand_argument-IsKnown arg none known = Ensures-need _ _ λ h. Ensures-ok arg (inl h)

  expand_arguments-IsKnown :
      (args : List Value)
      → Ensures
          (expand_arguments replacements args)
          (λ out. All (IsKnown replacements) out × (length out ≡ length args))
  unfolding expand_arguments
  expand_arguments-IsKnown [] = Ensures-ok [] (tt, refl)
  expand_arguments-IsKnown (arg ∷ rest) = Ensures-bind λ found has_found. Ensures-bind λ v has_v.
      Ensures-bind λ vs has_vs.
        let known =
          expand_argument-IsKnown arg found ((replacement-found arg).at found has_found) in
        let (others, size) = (expand_arguments-IsKnown rest).at vs has_vs in
        Ensures-ok (v ∷ vs) ((known.at v has_v, others), ap suc size)

  invocation-Ensures :
      (template : Value)
      → Ensures
          (invocation template replacements)
          (λ out. All (IsKnown replacements) out × (length out ≤ 16))
  unfolding invocation
  invocation-Ensures (arr vs) = Ensures-need _ _ λ h.
      Ensures-map (expand_arguments-IsKnown (items vs)) λ out (known, size). (known, ground arith)
  invocation-Ensures null = Ensures-need _ _ λ h. cc
  invocation-Ensures (bool b) = Ensures-need _ _ λ h. cc
  invocation-Ensures (int n) = Ensures-need _ _ λ h. cc
  invocation-Ensures (str s) = Ensures-need _ _ λ h. cc
  invocation-Ensures (obj fs) = Ensures-need _ _ λ h. cc

  -- If `invocation` returns arguments for a downloaded verifier, there are at most 16, and each is one
  -- of the known options or one of the replacements that the reader supplies.
  pub invocation-IsKnown :
      (template : Value) (out : List Value)
      → invocation template replacements ≡ ok out
      → All (IsKnown replacements) out × (length out ≤ 16)
  invocation-IsKnown template out h = (invocation-Ensures template).at out h

module _ (env : Env) where
  -- The origin of a URL that was fit to be admitted.
  pub record IsAdmitted (o : Text × Text) : Type 0 where
    pub location : Text
    pub url : Url
    pub splits : env.urlsplit location ≡ ok url
    pub secure : is_secure url ≡ true
    pub named : given (some url.netloc) ≡ true
    pub anonymous : is_anonymous url ≡ true
    pub same : o ≡ (url.scheme, url.netloc)

  -- The entry of the trace is of a request to an origin that was fit to be admitted.
  pub record Visited (e : Value) : Type 0 where
    pub location : Text
    pub recorded : e ! "url" ≡ ok (str location)
    pub url : Url
    pub splits : env.urlsplit location ≡ ok url
    pub origin : IsAdmitted (url.scheme, url.netloc)
    pub anonymous : is_anonymous url ≡ true

  abbrev pub IsGuarded : Reader → Type 0
  IsGuarded r = All IsAdmitted r.allowed

  origin_eq_sound : (o x : Text × Text) → origin_eq o x ≡ true → o ≡ x
  unfolding origin_eq
  origin_eq_sound (s, n) (t, m) h =
      let a = (text_eq_iff s t).0 (ground arith) in
      let b = (text_eq_iff n m).0 (ground arith) in cc (a, b)

  is_allowed-IsAdmitted :
      (o : Text × Text) (xs : List (Text × Text))
      → All IsAdmitted xs
      → is_allowed o xs ≡ true
      → IsAdmitted o
  unfolding is_allowed
  is_allowed-IsAdmitted o [] g h = cc
  is_allowed-IsAdmitted o (x ∷ xs) (a, g) h = elim (Bool-cases (origin_eq o x)) [
    | inl e ↦ subst IsAdmitted (sym (origin_eq_sound o x e)) a
    | inr e ↦ is_allowed-IsAdmitted o xs g (rw e at h)
  ]

  allow-IsAdmitted :
      (o : Text × Text) (xs : List (Text × Text))
      → IsAdmitted o
      → All IsAdmitted xs
      → All IsAdmitted (allow o xs)
  unfolding allow
  allow-IsAdmitted o xs a g = elim (Bool-cases (is_allowed o xs)) [
    | inl h ↦ rw h g
    | inr h ↦ rw h (a, g)
  ]

  split_url-urlsplit :
      (v : Value) → Ensures (split_url env v) (λ u. (t : Text) × (env.urlsplit t ≡ ok u))
  unfolding split_url
  split_url-urlsplit v = Ensures-bind λ t _. record { at = λ u h. (t, h) }

  trace_entry-url :
      (net : Network) (t method : Text) (answer : Response)
      → trace_entry env net t method answer ! "url" ≡ ok (str t)
  unfolding trace_entry dict lookup entries get found_or_missing lit text_eq
  trace_entry-url net t method answer = refl

  module _ (net : Network) (url : Value) (r : Reader) where
    Ensures-admit :
        Ensures
          (admit env net url r)
          (λ (o, r'). IsAdmitted o × (r'.allowed ≡ allow o r.allowed) × (r'.trace ≡ r.trace))
    unfolding admit
    Ensures-admit = Ensures-bind λ u splits. Ensures-need _ _ λ secure. Ensures-need _ _ λ h.
        let (t, split) = (split_url-urlsplit url).at u splits in
        let a : IsAdmitted (u.scheme, u.netloc) = record {
          location = t;
          url = u;
          splits = split;
          secure = secure;
          named = ground arith;
          anonymous = ground arith;
          same = refl;
        } in
        Ensures-ok _ (a, refl, refl)

    Ensures-request :
        (method : Text) (content : Option Bytes) (headers : Dict Value)
        → Ensures (request env net url method content headers r) (λ (answer, r').
          (u : Url) × (split_url env url ≡ ok u)
          × (is_allowed (u.scheme, u.netloc) r.allowed ≡ true)
          × (is_anonymous u ≡ true)
          × (r'.allowed ≡ r.allowed)
          × (length answer.body ≤ 2000000)
          × (t : Text) × (env.urlsplit t ≡ ok u)
          × (r'.trace ≡ r.trace ++ trace_entry env net t method answer ∷ []))
    unfolding request split_url
    Ensures-request method content headers = Ensures-bind λ u splits. Ensures-need _ _ λ h.
        Ensures-bind λ location text. Ensures-bind λ _ _. Ensures-bind λ answer _.
          Ensures-need _ _ λ size.
            let (t, is_text, split) = bind-ok (as_text url) _ splits in
            let same : t ≡ location = ok-injective (sym is_text ∙ text) in
            Ensures-ok _ (
              u,
              splits,
              ground arith,
              ground arith,
              refl,
              ground arith,
              location,
              subst (λ s. env.urlsplit s ≡ ok u) same split,
              refl,
            )

    -- what `admit` returns is fit to be admitted, and the reader stays as it should be
    pub admit-IsGuarded :
        (o : Text × Text) (r' : Reader)
        → IsGuarded r
        → admit env net url r ≡ ok (o, r')
        → IsAdmitted o × IsGuarded r' × (r'.trace ≡ r.trace)
    admit-IsGuarded o r' g h =
        let (a, added, same) = Ensures-admit.at (o, r') h in
        (a, subst (All IsAdmitted) (sym added) (allow-IsAdmitted o r.allowed a g), same)

    -- If every origin of the reader was fit to be admitted, a request that returns went to a URL of such
    -- an origin, without a user, a password or a fragment, its body has at most 2,000,000 bytes, and
    -- every origin of the reader afterwards is such.
    pub request-IsAdmitted :
        (method : Text) (content : Option Bytes) (headers : Dict Value) (answer : Response)
        (r' : Reader)
        → IsGuarded r
        → request env net url method content headers r ≡ ok (answer, r')
        → (u : Url) × (split_url env url ≡ ok u)
          × IsAdmitted (u.scheme, u.netloc)
          × (is_anonymous u ≡ true)
          × IsGuarded r'
          × (length answer.body ≤ 2000000)
    request-IsAdmitted method content headers answer r' g h =
        let (u, splits, allowed, anonymous, same, size, t, split, grown) =
          (Ensures-request method content headers).at (answer, r') h in
        (
          u,
          splits,
          is_allowed-IsAdmitted (u.scheme, u.netloc) r.allowed g allowed,
          anonymous,
          subst (All IsAdmitted) (sym same) g,
          size,
        )

    -- What a request adds to the trace, and that the origins stay as they are.
    pub request-Visited :
        (method : Text) (content : Option Bytes) (headers : Dict Value) (answer : Response)
        (r' : Reader)
        → IsGuarded r
        → request env net url method content headers r ≡ ok (answer, r')
        → (e : Value) × Visited e × (r'.trace ≡ r.trace ++ e ∷ []) × IsGuarded r'
    request-Visited method content headers answer r' g h =
        let (u, splits, allowed, anonymous, same, size, t, split, grown) =
          (Ensures-request method content headers).at (answer, r') h in
        let visited : Visited (trace_entry env net t method answer) = record {
          location = t;
          recorded = trace_entry-url net t method answer;
          url = u;
          splits = split;
          origin = is_allowed-IsAdmitted (u.scheme, u.netloc) r.allowed g allowed;
          anonymous = anonymous;
        } in
        (trace_entry env net t method answer, visited, grown, subst (All IsAdmitted) (sym same) g)
