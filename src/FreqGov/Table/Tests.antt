-- ===== src/FreqGov/Table/Tests.antt =====
-- The frequency table at concrete files.
use coresight_trace.Base.{
  ℕ, ◌≤◌, ◌<◌, ◌≡◌, refl, Option, none, some, List, [], ◌∷◌, count, length, All, arith,
}
use coresight_trace.FreqGov.Table.{
  freq_table_max, collect, shift, insert_step, sort_from, sort, parse, or_bounds,
  read_available_frequencies,
}
use coresight_trace.FreqGov.Table.Sorted.{Ascending}
use coresight_trace.FreqGov.Table.Contents.{
  selection, read_available_frequencies-selection, read_available_frequencies_bounds,
}

-- Descending, as some drivers list them, with one entry above the hardware maximum.
abbrev listed : Option (List ℕ)
listed = some (1600 ∷ 1200 ∷ 600 ∷ 300 ∷ [])

table_of_listed : read_available_frequencies 300 1200 listed ≡ 300 ∷ 600 ∷ 1200 ∷ []
unfolding read_available_frequencies parse collect or_bounds sort sort_from insert_step shift
table_of_listed = refl

table_without_file : read_available_frequencies 300 1200 none ≡ 300 ∷ 1200 ∷ []
unfolding read_available_frequencies parse collect or_bounds sort sort_from insert_step shift
table_without_file = refl

read_available_frequencies_bounds_example :
    (0 < length (read_available_frequencies 300 1200 listed))
    × (length (read_available_frequencies 300 1200 listed) ≤ freq_table_max)
    × All (λ f. (300 ≤ f) × (f ≤ 1200)) (read_available_frequencies 300 1200 listed)
read_available_frequencies_bounds_example =
    read_available_frequencies_bounds 300 1200 listed (omega arith)

read_available_frequencies-selection_example :
    Ascending (read_available_frequencies 300 1200 listed)
    × (count 600 (read_available_frequencies 300 1200 listed)
        ≡ count 600 (selection 300 1200 listed))
read_available_frequencies-selection_example =
    read_available_frequencies-selection 300 1200 600 listed
