-- ===== src/Resolve/Outcome.antt =====
-- What `resolve` promises whatever the events are.
use mathlib.Core.Path.{subst}
use cinquain.Prelude.{
  String, ◌≡◌, true, some, List, [], string_eq, pair_eq, arith, Bool-cases, inl, inr, is_empty,
  distinct,
}
use cinquain.Prelude.Map
use cinquain.Matrix.{StateMap, TypeStateKey}
use cinquain.Resolve.Runs.{done, >>=-eq-done, done-injective}
use cinquain.Resolve.Separate.{separate}
use cinquain.Resolve.Separate.Split.{separate-distinct}
use cinquain.Resolve.{World, resolve, resolve_conflicts, resolve_left}

-- Without a conflict the result is the common state, and no event is read.
resolve-no_conflict :
    (w : World) (sets : List (StateMap String)) (chains : List (List String))
    → (separate sets).1 ≡ []
    → resolve w sets chains ≡ done (separate sets).0
unfolding resolve
resolve-no_conflict w sets chains h = ground arith

resolve_conflicts-keeps :
    (w : World) (unconflicted : StateMap String) (conflicting : StateMap (List String))
    (chains : List (List String)) (state : StateMap String) (key : TypeStateKey) (id : String)
    → distinct (Map.keys unconflicted) ≡ true
    → resolve_conflicts w unconflicted conflicting chains ≡ done state
    → Map.get key unconflicted ≡ some id
    → Map.get key state ≡ some id
unfolding resolve_conflicts
resolve_conflicts-keeps w unconflicted conflicting chains state key id d h g =
    let (left, resolved, ends) =
      >>=-eq-done (resolve_left w unconflicted conflicting chains)
        (λ s. done (Map.extend s unconflicted)) h in
    subst (λ m. Map.get key m ≡ some id) (done-injective ends)
      (ground (arith, Map.get-extend key left unconflicted d))

-- Where resolution returns a state, every entry that `separate` found without conflict stands in it.
pub resolve-keeps :
    (w : World) (sets : List (StateMap String)) (chains : List (List String))
    (state : StateMap String) (key : TypeStateKey) (id : String)
    → resolve w sets chains ≡ done state
    → Map.get key (separate sets).0 ≡ some id
    → Map.get key state ≡ some id
unfolding resolve
resolve-keeps w sets chains state key id h g = elim (Bool-cases (is_empty (separate sets).1)) [
  | inl e ↦ subst (λ m. Map.get key m ≡ some id) (done-injective (ground arith)) g
  | inr e ↦
      resolve_conflicts-keeps w (separate sets).0 (separate sets).1 chains state key id
        (separate-distinct sets) (ground arith) g
]
