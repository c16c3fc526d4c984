-- ===== src/Maps/Library.antt =====
-- The table of mappings does not overflow, and the library of CS_TRACE_LIB gets into it.
use coresight_trace.Base.{
  ℕ, zero, suc, ◌+◌, ◌-◌, ◌≤◌, ◌<◌, ◌≡◌, refl, sym, ap, ◌∙◌, Bool, true, false, ◌&&◌, ◌||◌, not,
  Option, none, some, List, [], ◌∷◌, All, length, take, ◌==◌, Bool-cases, inl, inr, arith,
}
use coresight_trace.Maps.Select.{
  MapLine, MapInfo, path_max, strstr, names_lib, entry_at, entry_of, cons_entry, setup_map_info,
}

-- Whether an entry of the table names the library.
abbrev pub holds_lib : List ℕ → List MapInfo → Bool
holds_lib lib [] = false
holds_lib lib (m ∷ ms) = strstr m.path lib || holds_lib lib ms

entry_of-room :
    (max : ℕ) (lib : Option (List ℕ)) (count : ℕ) (l : MapLine) (m : MapInfo)
    → entry_of max lib count l ≡ some m
    → count < max
unfolding entry_of
entry_of-room max lib count l m h = ground arith

setup_map_info-from :
    (max : ℕ) (lib : Option (List ℕ)) (ls : List MapLine) (count : ℕ)
    → count ≤ max
    → count + length (setup_map_info max lib ls count) ≤ max
unfolding setup_map_info
setup_map_info-from max lib [] count h = omega arith
setup_map_info-from max lib (l ∷ ls) count h =
    let skipped = setup_map_info-from max lib ls count h in
    let added = setup_map_info-from max lib ls (count + 1) in
    by_entry (entry_of max lib count l) refl skipped added
  where
    by_entry :
        (e : Option MapInfo)
        → entry_of max lib count l ≡ e
        → count + length (setup_map_info max lib ls count) ≤ max
        → (count + 1 ≤ max → count + 1 + length (setup_map_info max lib ls (count + 1)) ≤ max)
        → count
            + length (
                cons_entry e
                  (setup_map_info max lib ls count)
                  (setup_map_info max lib ls (count + 1)))
          ≤ max
    by_entry none e skipped added = skipped
    by_entry (some m) e skipped added =
        let room = entry_of-room max lib count l m e in
        let rest = added (omega arith) in omega arith

take_all : (n : ℕ) (xs : List ℕ) → length xs ≤ n → take n xs ≡ xs
take_all zero [] h = refl
take_all zero (x ∷ xs) h = absurd (omega arith)
take_all (suc n) [] h = refl
take_all (suc n) (x ∷ xs) h = ap (λ r. x ∷ r) (take_all n xs (omega arith))

-- The table never has more entries than there is room for.
setup_map_info-le :
    (info_count_max : ℕ) (lib : Option (List ℕ)) (ls : List MapLine)
    → length (setup_map_info info_count_max lib ls 0) ≤ info_count_max
setup_map_info-le info_count_max lib ls =
    omega (arith, setup_map_info-from info_count_max lib ls 0 (omega arith))

-- A path that the table can hold whole.
abbrev path_length : Option (List ℕ) → ℕ
path_length none = 0
path_length (some p) = length p

abbrev pub IsShort : MapLine → Type 0
IsShort l = path_length l.path < path_max

-- Whether a line maps the library as code.
abbrev pub maps_lib : List ℕ → List MapLine → Bool
maps_lib lib [] = false
maps_lib lib (l ∷ ls) = (l.executable && names_lib (some lib) l.path) || maps_lib lib ls

abbrev path_of : Option MapInfo → List ℕ
path_of none = []
path_of (some m) = m.path

entry_at-path :
    (l : MapLine) (lib : List ℕ) (path : Option (List ℕ)) (m : MapInfo)
    → path_length path < path_max
    → entry_at l path ≡ some m
    → strstr m.path lib ≡ names_lib (some lib) path
entry_at-path l lib none m h e = cc
entry_at-path l lib (some p) m h e =
    ap (λ q. strstr q lib) (sym (ap path_of e) ∙ take_all (path_max - 1) p (omega arith))

entry_of-at :
    (max : ℕ) (lib : Option (List ℕ)) (count : ℕ) (l : MapLine) (m : MapInfo)
    → entry_of max lib count l ≡ some m
    → (entry_at l l.path ≡ some m) × (((count == max - 1) && not (names_lib lib l.path)) ≡ false)
unfolding entry_of
entry_of-at max lib count l m h = ground arith

entry_of-none :
    (max : ℕ) (lib : List ℕ) (count : ℕ) (l : MapLine)
    → entry_of max (some lib) count l ≡ none
    → count < max
    → (l.executable && names_lib (some lib) l.path) ≡ false
unfolding entry_of
entry_of-none max lib count l h lt = by_path l.path refl
  where
    by_path : (o : Option (List ℕ)) → l.path ≡ o → (l.executable && names_lib (some lib) o) ≡ false
    by_path none e = ground arith
    by_path (some p) e = ground arith

-- The library of CS_TRACE_LIB is found: if an executable line of the maps names it and no path is too
-- long for the table, an entry names it, wherever the line stands and however small the table is.
pub setup_map_info-holds_lib :
    (info_count_max : ℕ) (lib : List ℕ) (ls : List MapLine) (count : ℕ)
    → count < info_count_max
    → All IsShort ls
    → maps_lib lib ls ≡ true
    → holds_lib lib (setup_map_info info_count_max (some lib) ls count) ≡ true
unfolding setup_map_info
setup_map_info-holds_lib max lib [] count room short mapped = cc
setup_map_info-holds_lib max lib (l ∷ ls) count room short mapped =
    by_entry (entry_of max (some lib) count l) refl
      (λ later. setup_map_info-holds_lib max lib ls count room short.1 later)
      (λ next later. setup_map_info-holds_lib max lib ls (count + 1) next short.1 later)
  where
    by_entry :
        (e : Option MapInfo)
        → entry_of max (some lib) count l ≡ e
        → (maps_lib lib ls ≡ true → holds_lib lib (setup_map_info max (some lib) ls count) ≡ true)
        → (count + 1 < max
            → maps_lib lib ls ≡ true
            → holds_lib lib (setup_map_info max (some lib) ls (count + 1)) ≡ true)
        → holds_lib lib (
            cons_entry e
              (setup_map_info max (some lib) ls count)
              (setup_map_info max (some lib) ls (count + 1)))
          ≡ true
    by_entry none e skipped added =
        let other = entry_of-none max lib count l e room in
        let later : maps_lib lib ls ≡ true = ground arith in skipped later
    by_entry (some m) e skipped added =
        let (at_path, last) = entry_of-at max (some lib) count l m e in
        let same = entry_at-path l lib l.path m short.0 at_path in
        elim (Bool-cases (strstr m.path lib)) [
          | inl here ↦ rw here refl
          | inr absent ↦
              let unnamed : names_lib (some lib) l.path ≡ false = sym same ∙ absent in
              let next : count + 1 < max = ground arith in
              let later : maps_lib lib ls ≡ true = ground arith in rw absent (added next later)
        ]
