-- ===== src/Tests/Values.antt =====
-- Instances of the theorems on the stored bytes of room states.
use cinquain.Prelude.{ℕ, ◌≡◌, refl, none, some, List, [], ◌∷◌, nat_eq, contains, distinct, arith}
use cinquain.Core.Errors.{good}
use cinquain.Core.Bytes.{Bytes, bytes_eq, starts_with}
use cinquain.State.Layers.{StateDiff, load_shortstatehash_info}
use cinquain.State.Layers.Format.{
  value_of, read_diff, load_values, compress_state_event, parse_compressed_state_event,
}
use cinquain.State.Layers.Reading.{IsStorable, read_diff-value_of, parse-compress_state_event}
use cinquain.State.Layers.Refines.{load_values-load_shortstatehash_info, save_values, save_diffs}

abbrev event_of : ℕ → Bytes
event_of n = 0 ∷ 0 ∷ 0 ∷ 0 ∷ 0 ∷ 0 ∷ 0 ∷ 7 ∷ 0 ∷ 0 ∷ 0 ∷ 0 ∷ 0 ∷ 0 ∷ 0 ∷ n ∷ []

abbrev bottom : StateDiff Bytes
bottom = record { parent = none; added = event_of 1 ∷ event_of 2 ∷ []; removed = [] }

abbrev upper : StateDiff Bytes
upper = record { parent = some 5; added = event_of 3 ∷ []; removed = event_of 1 ∷ [] }

bottom-IsStorable : IsStorable bottom
unfolding distinct contains starts_with
bottom-IsStorable = record {
  added = ((refl, refl), ((refl, refl), tt));
  removed = tt;
  added_once = refl;
  removed_once = refl;
  parent = refl;
  word = omega arith;
}

upper-IsStorable : IsStorable upper
unfolding distinct contains starts_with
upper-IsStorable = record {
  added = ((refl, refl), tt);
  removed = (refl, tt);
  added_once = refl;
  removed_once = refl;
  parent = refl;
  word = omega arith;
}

read_diff-value_of_example : read_diff (value_of upper) ≡ good (some upper)
read_diff-value_of_example = read_diff-value_of upper upper-IsStorable

abbrev saved : List (ℕ × StateDiff Bytes)
saved = (5, bottom) ∷ (6, upper) ∷ []

load_values-load_shortstatehash_info_example :
    load_values (save_values saved []) 3 6 ≡ load_shortstatehash_info (save_diffs saved []) 3 6
load_values-load_shortstatehash_info_example =
    load_values-load_shortstatehash_info saved 3 6 (bottom-IsStorable, (upper-IsStorable, tt))

parse-compress_state_event_example :
    parse_compressed_state_event (compress_state_event 7 300) ≡ good (7, 300)
parse-compress_state_event_example = parse-compress_state_event 7 300 (omega arith) (omega arith)
