-- ===== src/Maps/Select.antt =====
-- The loop of `setup_map_info` over the lines of /proc/PID/maps. A line is what `sscanf` and `strchr`
-- read of it; a text is its bytes. Each entry's file is mapped afterwards, which is left out.
use coresight_trace.Base.{
  ℕ, ◌+◌, ◌-◌, Bool, true, false, ◌&&◌, ◌||◌, not, Option, none, some, List, [], ◌∷◌, take, leb,
  ◌==◌, if◌then◌else◌,
}

-- `path` is the text from the first slash on, if there is one.
pub record MapLine : Type 0 where
  pub start : ℕ
  pub end : ℕ
  pub offset : ℕ
  pub executable : Bool
  pub path : Option (List ℕ)

pub record MapInfo : Type 0 where
  pub start : ℕ
  pub end : ℕ
  pub offset : ℕ
  pub path : List ℕ

abbrev pub path_max : ℕ
path_max = 4096

-- `strstr(text, word) != NULL`
abbrev pub starts_with : List ℕ → List ℕ → Bool
starts_with [] text = true
starts_with (c ∷ word) [] = false
starts_with (c ∷ word) (d ∷ text) = (c == d) && starts_with word text

abbrev pub strstr : List ℕ → List ℕ → Bool
strstr [] word = starts_with word []
strstr (c ∷ text) word = starts_with word (c ∷ text) || strstr text word

-- Whether the line names the library of CS_TRACE_LIB.
abbrev pub names_lib : Option (List ℕ) → Option (List ℕ) → Bool
names_lib none path = false
names_lib (some lib) none = false
names_lib (some lib) (some path) = strstr path lib

abbrev pub entry_at : MapLine → Option (List ℕ) → Option MapInfo
entry_at l none = none
entry_at l (some p) =
    some (record { start = l.start; end = l.end; offset = l.offset; path = take (path_max - 1) p })

-- What a line adds to the table: the last entry is kept for the library.
unfoldable pub entry_of : ℕ → Option (List ℕ) → ℕ → MapLine → Option MapInfo
entry_of info_count_max lib count l =
    if not l.executable
    then none
    else if leb info_count_max count
    then none
    else if (count == info_count_max - 1) && not (names_lib lib l.path)
    then none
    else entry_at l l.path

abbrev pub cons_entry : Option MapInfo → (skipped added : List MapInfo) → List MapInfo
cons_entry none skipped added = skipped
cons_entry (some m) skipped added = m ∷ added

-- The entries from the count on.
unfoldable pub setup_map_info : ℕ → Option (List ℕ) → List MapLine → ℕ → List MapInfo
setup_map_info info_count_max lib [] count = []
setup_map_info info_count_max lib (l ∷ ls) count =
    cons_entry (entry_of info_count_max lib count l) (setup_map_info info_count_max lib ls count)
      (setup_map_info info_count_max lib ls (count + 1))
