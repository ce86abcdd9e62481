-- ===== src/Graph.antt =====
-- The depth-first walk of `assess` in verify/verify_mark.py (`visit`, with its sets `seen` and
-- `visiting` and the flag `invalid`), and the test GRAPH_CLOSURE that rests on it.
pub mod Fuel
pub mod Order
pub mod Counting
pub mod Acyclic
pub mod Closure
use whpstanding.Prelude.{
  ℕ, zero, suc, Bool, true, false, not, ◌&&◌, ◌||◌, List, [], ◌∷◌, Option, none, some, length, all,
  ◌==◌, if◌then◌else◌,
}
use whpstanding.Text.{Text}
use whpstanding.Dict.{Dict, get, keys, has_text, without}

pub record Walk : Type 0 where
  pub seen : List Text
  pub visiting : List Text
  pub invalid : Bool

-- `xs.add(t)` of a set
unfoldable pub add : Text → List Text → List Text
add t xs = if has_text t xs then xs else t ∷ xs

-- `edges[h]['payload']['from']` if `h in edges`; a node with no edge has no parents.
unfoldable pub or_none : Option (List Text) → List Text
or_none none = []
or_none (some ps) = ps

unfoldable pub parents : Dict (List Text) → Text → List Text
parents edges h = or_none (get h edges)

unfoldable pub enter : Text → Walk → Walk
enter h w = record w { visiting = add h w.visiting }

-- `visiting.remove(h); seen.add(h)`
unfoldable pub leave : Text → Option Walk → Option Walk
leave h none = none
leave h (some w) = some (record w { visiting = without h w.visiting; seen = add h w.seen })

abbrev pub and_then : Option Walk → (Walk → Option Walk) → Option Walk
and_then none f = none
and_then (some w) f = f w

-- `for ph in …: visit(ph)`
unfoldable pub visit_all : (Text → Walk → Option Walk) → List Text → Walk → Option Walk
visit_all step [] w = some w
visit_all step (p ∷ ps) w = and_then (step p w) (visit_all step ps)

-- `none` is a walk that is out of fuel. Each nested call has one more node in `visiting`, so fuel
-- above the number of nodes is enough.
unfoldable pub visit : List Text → Dict (List Text) → ℕ → Text → Walk → Option Walk
visit nodes edges zero h w = none
visit nodes edges (suc fuel) h w =
    let walked = visit_all (visit nodes edges fuel) (parents edges h) (enter h w) in
    if has_text h w.visiting || not (has_text h nodes)
    then some (record w { invalid = true })
    else if has_text h w.seen
    then some w
    else leave h walked

abbrev pub start : Walk
start = record { seen = []; visiting = []; invalid = false }

unfoldable pub visit_root : List Text → Dict (List Text) → Text → Option Walk
visit_root nodes edges root = visit nodes edges (suc (length nodes)) root start

-- `not invalid[0] and len(seen) == len(n) and all(h in n for h in edges)`
unfoldable pub is_closed_walk : List Text → Dict (List Text) → Option Walk → Bool
is_closed_walk nodes edges none = false
is_closed_walk nodes edges (some w) =
    not w.invalid && length w.seen == length nodes && all (λ h. has_text h nodes) (keys edges)

unfoldable pub is_closed : List Text → Dict (List Text) → Text → Bool
unfolding is_closed_walk
is_closed nodes edges root = is_closed_walk nodes edges (visit_root nodes edges root)
