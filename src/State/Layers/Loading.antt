-- ===== src/State/Layers/Loading.antt =====
-- That loading a stored stack of layers returns it.
use cinquain.Prelude.{
  ℕ, zero, suc, ◌+◌, ◌≤◌, ◌<◌, ◌≡◌, sym, ap, true, none, some, List, [], ◌∷◌, Eq, contains,
  distinct, length, arith, nat_eq,
}
use cinquain.Prelude.Map
use cinquain.Core.Errors.{good}
use mathlib.Core.Path.{subst}
use cinquain.State.Layers.{ShortStateInfo, Statediffs, save_state, load_shortstatehash_info}
use cinquain.State.Layers.Stored.{full_of, Stored}
use cinquain.State.Layers.Sizes.{sizes, save_state-returns}
use cinquain.State.Layers.Saving.{save_state_lem}

module _ {E : Type 0} ⦃e : Eq E⦄ where
  abbrev with_full : ShortStateInfo E → List E → ShortStateInfo E
  with_full layer full = record {
    shortstatehash = layer.shortstatehash;
    full_state = full;
    added = layer.added;
    removed = layer.removed;
  }

  -- A stored stack is what its hash loads.
  pub load_shortstatehash_info-Stored :
      (db : Statediffs E) (fuel : ℕ) (layer : ShortStateInfo E) (rest : List (ShortStateInfo E))
      → Stored db (layer ∷ rest)
      → length rest ≤ fuel
      → load_shortstatehash_info db (suc fuel) layer.shortstatehash ≡ some (good (layer ∷ rest))
  unfolding load_shortstatehash_info
  load_shortstatehash_info-Stored db fuel layer [] (g, f, t, s) l =
      rw (load_shortstatehash_info, g)
        (ap (λ full. some (good (with_full layer full ∷ []))) (sym f))
  load_shortstatehash_info-Stored db zero layer (top ∷ rest) (g, f, t, s) l = absurd (ground arith)
  load_shortstatehash_info-Stored db (suc fuel) layer (top ∷ rest) (g, f, t, s) l =
      rw
        (
          load_shortstatehash_info,
          g,
          load_shortstatehash_info-Stored db fuel top rest s (ground arith),
        )
        (ap (λ full. some (good (with_full layer full ∷ top ∷ rest))) (sym f))

  -- What loading a saved state returns: its events, in at most four layers.
  pub record LoadsAs (db : Statediffs E) (h : ℕ) (state : List E) : Type 0 where
    pub layer : ShortStateInfo E
    pub rest : List (ShortStateInfo E)
    pub loads : load_shortstatehash_info db 4 h ≡ some (good (layer ∷ rest))
    pub same_events : (a : E) → contains layer.full_state a ≡ contains state a
    pub is_shallow : length rest ≤ 3

  -- A state without repetition, saved under a hash that is not in use and on top of a stored stack,
  -- where the sizes of all sets together are below 2 ^ 31: saving returns, and what loading the hash
  -- returns then has exactly the events of the state, in at most four layers.
  pub save_state-LoadsAs :
      (db : Statediffs E) (h : ℕ) (new_state : List E) (parents : List (ShortStateInfo E))
      → Map.get h db ≡ none
      → Stored db parents
      → distinct new_state ≡ true
      → distinct (full_of parents) ≡ true
      → (length new_state + length (full_of parents)) + sizes parents < 2147483648
      → (db' : Statediffs E) × (save_state db h new_state parents ≡ good db')
        × LoadsAs db' h new_state
  save_state-LoadsAs db h new_state parents n s d f b =
      let (db', r) = save_state-returns db h new_state parents b in
      let saved = save_state_lem db db' h new_state parents n s d f r in
      (
        db',
        r,
        record {
          layer = saved.layer;
          rest = saved.rest;
          loads =
              subst (λ k. load_shortstatehash_info db' 4 k ≡ some (good (saved.layer ∷ saved.rest)))
                saved.has_hash
                (load_shortstatehash_info-Stored db' 3 saved.layer saved.rest saved.stored
                  saved.is_shallow);
          same_events = saved.same_events;
          is_shallow = saved.is_shallow;
        },
      )
