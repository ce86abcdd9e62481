-- ===== src/Main/Asked.antt =====
-- What each step of `main` in verify/verify_mark.py does with the files and the address that it was given:
-- what it returned, and what it raised.
use mathlib.Core.Option
use whpstanding.Prelude.{◌≡◌, refl, ap, subst, ◌∙◌, true, inl, inr, ◌⊎◌, Option, none, some}
use whpstanding.Result.{Fault, Result, ok, err, ◌>>=◌, bind-ok, ok-injective}
use whpstanding.Text.{Text, Bytes, lit}
use whpstanding.Dict.{get}
use whpstanding.Value.{Value, bool, obj, ◌!◌, lookup, entries, of_entries, found_or_missing}
use whpstanding.Env.{Env}
use whpstanding.Discovery.Resolution.{Resolved, verify_resolution}
use whpstanding.Registry.{verify_registry}
use whpstanding.Finality.{Node, recheck_chain}
use whpstanding.Main.{
  Arguments, at_or_now, resolved_report, discovery_step, registry_step, chain_step,
}

-- What an optional step makes of the field that it writes.
abbrev pub Given : Option (Result Value) → Option Value → Option Value → Type 0
Given none old new = new ≡ old
Given (some m) old new = (v : Value) × (m ≡ ok v) × (new ≡ some v)

pub bind-err :
    {A B : Type 0} (m : Result A) (f : A → Result B) {fault : Fault}
    → (m >>= f) ≡ err fault
    → (m ≡ err fault) ⊎ ((a : A) × (m ≡ ok a) × (f a ≡ err fault))
unfolding ◌>>=◌
bind-err (ok a) f h = inr (a, refl, h)
bind-err (err e) f {fault} h = let same : e ≡ fault = cc in inl (ap err same)

module _ {A : Type 0} (f : A → Result Value) where
  map-Given :
      (o : Option A) (old new : Option Value)
      → Given (Option.map f o) old new
      → ((o ≡ none) × (new ≡ old))
        ⊎ ((a : A) × (o ≡ some a) × (v : Value) × (f a ≡ ok v) × (new ≡ some v))
  map-Given none old new g = inl (refl, g)
  map-Given (some a) old new (v, ran, shown) = inr (a, refl, v, ran, shown)

  map-raises :
      (o : Option A) (fault : Fault)
      → Option.map f o ≡ some (err fault)
      → (a : A) × (o ≡ some a) × (f a ≡ err fault)
  map-raises none fault h = cc
  map-raises (some a) fault h = (a, refl, cc h)

-- The dict that reports a resolution.
pub record Shows (v : Value) (r : Resolved) : Type 0 where
  pub verified : v ! "verified" ≡ ok (bool true)
  pub resolution_id : v ! "resolution_id" ≡ ok r.resolution_id
  pub capability_id : v ! "capability_id" ≡ ok r.capability_id
  pub service_origin : v ! "service_origin" ≡ ok r.service_origin
  pub observed_at : v ! "observed_at" ≡ ok r.observed_at
  pub valid_until : v ! "valid_until" ≡ ok r.valid_until

resolved_report-Shows : (r : Resolved) → Shows (obj (of_entries (resolved_report r))) r
unfolding resolved_report of_entries entries lookup found_or_missing get lit
    whpstanding.Text.text_eq
resolved_report-Shows r = record {
  verified = refl;
  resolution_id = refl;
  capability_id = refl;
  service_origin = refl;
  observed_at = refl;
  valid_until = refl;
}

module _ (env : Env) (args : Arguments) (e : Value) where
  -- `--resolution`: the report that is shown is that of the resolution in the file.
  pub Discovers : Option Value → Type 0
  Discovers shown =
      ((args.resolution ≡ none) × (shown ≡ none))
      ⊎ ((document : Value) × (bytes : Bytes) × (args.resolution ≡ some (ok (document, bytes)))
          × (r : Resolved) × (verify_resolution env document e args.root_pin
                (at_or_now args.at (args.clock 0))
              ≡ ok r)
          × (v : Value) × (shown ≡ some v)
          × Shows v r)

  pub DiscoveryRaises : Fault → Type 0
  DiscoveryRaises fault =
      (args.resolution ≡ some (err fault))
      ⊎ ((document : Value) × (bytes : Bytes) × (args.resolution ≡ some (ok (document, bytes)))
          × (verify_resolution env document e args.root_pin (at_or_now args.at (args.clock 0))
              ≡ err fault))

  pub Given-Discovers :
      (new : Option Value) → Given (discovery_step env args e) none new → Discovers new
  unfolding discovery_step Discovers
  Given-Discovers new g = elim (map-Given _ args.resolution none new g) [
    | inl absent ↦ inl absent
    | inr (file, given, v, ran, shown) ↦
        let ((document, bytes), read, rest) = bind-ok _ _ ran in
        let (r, resolved, out) = bind-ok _ _ rest in
        inr (
          document,
          bytes,
          given ∙ ap some read,
          r,
          resolved,
          v,
          shown,
          subst (λ x. Shows x r) (ok-injective out) (resolved_report-Shows r),
        )
  ]

  pub discovery_step-raises :
      (fault : Fault) → discovery_step env args e ≡ some (err fault) → DiscoveryRaises fault
  unfolding discovery_step DiscoveryRaises
  discovery_step-raises fault h =
      let (file, given, raised) = map-raises _ args.resolution fault h in
      elim (bind-err _ _ raised) [
        | inl unread ↦ inl (given ∙ ap some unread)
        | inr ((document, bytes), read, rest) ↦ elim (bind-err _ _ rest) [
          | inl refused ↦ inr (document, bytes, given ∙ ap some read, refused)
          | inr (r, resolved, out) ↦ cc
        ]
      ]

  module _ (raw : Bytes) where
    -- `--registry`: the standing that is shown is what the registry's snapshot gives, and it is the one
    -- of the report without a snapshot.
    pub Checks : Value → Value → Type 0
    Checks unchecked standing =
        ((args.registry ≡ none) × (standing ≡ unchecked))
        ⊎ ((document : Value) × (bytes : Bytes) × (args.registry ≡ some (ok (document, bytes)))
            × (verify_registry env document e (env.sha256 raw) args.root_pin
                  (at_or_now args.at (args.clock 1))
                ≡ ok standing))

    pub RegistryRaises : Fault → Type 0
    RegistryRaises fault =
        (args.registry ≡ some (err fault))
        ⊎ ((document : Value) × (bytes : Bytes) × (args.registry ≡ some (ok (document, bytes)))
            × (verify_registry env document e (env.sha256 raw) args.root_pin
                  (at_or_now args.at (args.clock 1))
                ≡ err fault))

    pub Given-Checks :
        (old : Value) (new : Option Value)
        → Given (registry_step env args e raw) (some old) new
        → (standing : Value) × Checks old standing × (new ≡ some standing)
    unfolding registry_step Checks
    Given-Checks old new g = elim (map-Given _ args.registry (some old) new g) [
      | inl (absent, same) ↦ (old, inl (absent, refl), same)
      | inr (file, given, v, ran, shown) ↦
          let ((document, bytes), read, checked) = bind-ok _ _ ran in
          (v, inr (document, bytes, given ∙ ap some read, checked), shown)
    ]

    pub registry_step-raises :
        (fault : Fault) → registry_step env args e raw ≡ some (err fault) → RegistryRaises fault
    unfolding registry_step RegistryRaises
    registry_step-raises fault h =
        let (file, given, raised) = map-raises _ args.registry fault h in
        elim (bind-err _ _ raised) [
          | inl unread ↦ inl (given ∙ ap some unread)
          | inr ((document, bytes), read, refused) ↦
              inr (document, bytes, given ∙ ap some read, refused)
        ]

  -- `--rpc`: the finality that is shown is what the node's answers give, and it is the one of the report
  -- without a node.
  pub Rechecks : Value → Value → Type 0
  Rechecks unchecked finality =
      ((args.rpc ≡ none) × (finality ≡ unchecked))
      ⊎ ((url : Text) × (node : Node) × (args.rpc ≡ some (url, node))
          × (p : Value) × (e ! "payload" ≡ ok p)
          × (recheck_chain node p url ≡ ok finality))

  pub ChainRaises : Fault → Type 0
  ChainRaises fault =
      (url : Text) × (node : Node) × (args.rpc ≡ some (url, node))
      × ((e ! "payload" ≡ err fault)
          ⊎ ((p : Value) × (e ! "payload" ≡ ok p) × (recheck_chain node p url ≡ err fault)))

  pub Given-Rechecks :
      (old : Value) (new : Option Value)
      → Given (chain_step env args e) (some old) new
      → (finality : Value) × Rechecks old finality × (new ≡ some finality)
  unfolding chain_step Rechecks
  Given-Rechecks old new g = elim (map-Given _ args.rpc (some old) new g) [
    | inl (absent, same) ↦ (old, inl (absent, refl), same)
    | inr ((url, node), given, v, ran, shown) ↦
        let (p, has_p, rechecked) = bind-ok _ _ ran in
        (v, inr (url, node, given, p, has_p, rechecked), shown)
  ]

  pub chain_step-raises :
      (fault : Fault) → chain_step env args e ≡ some (err fault) → ChainRaises fault
  unfolding chain_step ChainRaises
  chain_step-raises fault h =
      let ((url, node), given, raised) = map-raises _ args.rpc fault h in
      (url, node, given, bind-err _ _ raised)
