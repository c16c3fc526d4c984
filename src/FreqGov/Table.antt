-- ===== src/FreqGov/Table.antt =====
-- The frequency table of src/freq_gov.c: `read_available_frequencies`. The model keeps the entries
-- of `freq_table` in use, so `freq_table_num` is their number.
pub mod Sorted
pub mod Contents
mod Tests
use coresight_trace.Base.{
  ℕ, zero, suc, ◌+◌, ◌-◌, Bool, ◌||◌, Option, none, some, List, [], ◌∷◌, ◌++◌, length, get_or, set,
  ltb, ◌==◌, if◌then◌else◌,
}

-- The room of `freq_table`.
abbrev pub freq_table_max : ℕ
freq_table_max = 64

-- The test under which the parse loop skips a frequency.
abbrev pub out_of_bounds : ℕ → ℕ → ℕ → Bool
out_of_bounds lo hi f = ltb f lo || ltb hi f

-- The `while` loop: what `fscanf` reads, in order, and the entries so far.
unfoldable pub collect : ℕ → ℕ → List ℕ → List ℕ → List ℕ
collect lo hi [] t = t
collect lo hi (f ∷ fs) t =
    if ltb (length t) freq_table_max
    then collect lo hi fs (if out_of_bounds lo hi f then t else t ++ f ∷ [])
    else t

-- The inner loop of the sort: `k` is `j + 1`, which does not fall below 0. Returns the array and
-- the index that the key goes to.
unfoldable pub shift : ℕ → List ℕ → ℕ → List ℕ × ℕ
shift key t zero = (t, 0)
shift key t (suc j) =
    if ltb key (get_or t j 0) then shift key (set t (suc j) (get_or t j 0)) j else (t, suc j)

-- The body of the outer loop, at index `i`.
unfoldable pub insert_step : List ℕ → ℕ → List ℕ
unfolding shift
insert_step t i = let key = get_or t i 0 in let (t', k) = shift key t i in set t' k key

-- The outer loop from index `i`, with the rounds that are left.
unfoldable pub sort_from : List ℕ → ℕ → ℕ → List ℕ
sort_from t i zero = t
sort_from t i (suc rounds) = sort_from (insert_step t i) (i + 1) rounds

unfoldable pub sort : List ℕ → List ℕ
sort t = sort_from t 1 (length t - 1)

-- The numbers that the file holds, if it opens.
unfoldable pub parse : ℕ → ℕ → Option (List ℕ) → List ℕ
parse lo hi none = []
parse lo hi (some file) = collect lo hi file []

-- No table: the hardware bounds.
unfoldable pub or_bounds : ℕ → ℕ → List ℕ → List ℕ
or_bounds lo hi t = if length t == 0 then lo ∷ hi ∷ [] else t

unfoldable pub read_available_frequencies : ℕ → ℕ → Option (List ℕ) → List ℕ
read_available_frequencies lo hi file = sort (or_bounds lo hi (parse lo hi file))
