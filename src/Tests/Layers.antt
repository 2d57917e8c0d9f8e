-- ===== src/Tests/Layers.antt =====
-- An instance of the theorem on saving and loading room states.
use cinquain.Prelude.{ℕ, ◌+◌, ◌<◌, ◌≡◌, refl, true, List, [], ◌∷◌, none, nat_eq, arith}
use cinquain.Core.Errors.{good}
use cinquain.State.Layers.{ShortStateInfo, Statediffs, save_state}
use cinquain.State.Layers.Stored.{Tight, Stored}
use cinquain.State.Layers.Loading.{LoadsAs, save_state-LoadsAs}

-- A state of two events, stored in one layer.
abbrev old_layer : ShortStateInfo ℕ
old_layer = record {
  shortstatehash = 1;
  full_state = 10 ∷ 20 ∷ [];
  added = 10 ∷ 20 ∷ [];
  removed = [];
}

abbrev old_table : Statediffs ℕ
old_table = (1, record { parent = none; added = 10 ∷ 20 ∷ []; removed = [] }) ∷ []

old-Tight : Tight {E = ℕ} [] (10 ∷ 20 ∷ []) []
unfolding cinquain.Prelude.contains cinquain.Prelude.distinct
old-Tight = record {
  is_new = λ a k. refl;
  is_old = λ a k. k;
  once_added = refl;
  once_removed = refl;
}

old-Stored : Stored old_table (old_layer ∷ [])
unfolding cinquain.Prelude.Map.get
old-Stored = (refl, refl, old-Tight, tt)

save_state-LoadsAs_example :
    (db' : Statediffs ℕ) × (save_state old_table 2 (20 ∷ 30 ∷ []) (old_layer ∷ []) ≡ good db')
    × LoadsAs db' 2 (20 ∷ 30 ∷ [])
unfolding cinquain.Prelude.Map.get cinquain.Prelude.distinct cinquain.Prelude.contains
save_state-LoadsAs_example =
    save_state-LoadsAs old_table 2 (20 ∷ 30 ∷ []) (old_layer ∷ []) refl old-Stored refl refl
      (omega arith)
