-- ===== src/Maps/Tests.antt =====
-- A map with three files of code, the library last; a text is written by its letters' numbers.
use coresight_trace.Base.{
  ℕ, ◌+◌, ◌≡◌, refl, Bool, true, false, Option, none, some, List, [], ◌∷◌, length, All, arith,
}
use coresight_trace.Maps.Select.{MapLine, setup_map_info, entry_of}
use coresight_trace.Maps.Library.{holds_lib, IsShort, setup_map_info-holds_lib}

abbrev file_line : ℕ → Bool → Option (List ℕ) → MapLine
file_line start executable path = record {
  start = start;
  end = start + 4096;
  offset = 0;
  executable = executable;
  path = path;
}

abbrev lines : List MapLine
lines =
    file_line 65536 true (some (47 ∷ 97 ∷ []))
    ∷ file_line 131072 false (some (47 ∷ 98 ∷ []))
    ∷ file_line 196608 true (some (47 ∷ 99 ∷ []))
    ∷ file_line 262144 true none
    ∷ file_line 327680 true (some (47 ∷ 108 ∷ 105 ∷ 98 ∷ []))
    ∷ []

lines-IsShort : All IsShort lines
lines-IsShort = omega arith

setup_map_info-holds_lib_example :
    holds_lib (105 ∷ 98 ∷ []) (setup_map_info 2 (some (105 ∷ 98 ∷ [])) lines 0) ≡ true
setup_map_info-holds_lib_example =
    setup_map_info-holds_lib 2 (105 ∷ 98 ∷ []) lines 0 (omega arith) lines-IsShort refl

two_entries : length (setup_map_info 2 (some (105 ∷ 98 ∷ [])) lines 0) ≡ 2
unfolding setup_map_info entry_of
two_entries = refl
