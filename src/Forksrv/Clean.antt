-- ===== src/Forksrv/Clean.antt =====
-- The children of the target do not find the library in LD_PRELOAD.
use coresight_trace.Base.{
  ℕ, zero, suc, ◌+◌, ◌≤◌, ◌<◌, ◌≡◌, refl, Bool, true, false, Option, none, some, List, [], ◌∷◌,
  length, length-append, length-take, length-drop, take, drop, Bool-cases, inl, inr, arith,
}
use coresight_trace.Maps.Select.{starts_with, strstr}
use coresight_trace.Forksrv.Scrub.{
  find, remove_at, at_hit, remove_all, only_separators, scrub_preload,
}

starts_with-length : (word text : List ℕ) → starts_with word text ≡ true → length word ≤ length text
starts_with-length [] text h = omega arith
starts_with-length (c ∷ word) [] h = cc
starts_with-length (c ∷ word) (d ∷ text) h =
    let rest : starts_with word text ≡ true = ground arith in
    omega (arith, starts_with-length word text rest)

find-within :
    (i : ℕ) (text word : List ℕ) (j : ℕ)
    → find i text word ≡ some j
    → (i ≤ j) × (j + length word ≤ i + length text)
find-within i [] word j h = ground (arith, starts_with-length word [])
find-within i (c ∷ text) word j h =
    ground (arith, starts_with-length word (c ∷ text), find-within (i + 1) text word j)

find-none : (i : ℕ) (text word : List ℕ) → find i text word ≡ none → strstr text word ≡ false
find-none i [] word h = ground arith
find-none i (c ∷ text) word h = ground (arith, find-none (i + 1) text word)

length-remove_at :
    (i : ℕ) (text word : List ℕ)
    → i + length word ≤ length text
    → length (remove_at i (length word) text) + length word ≡ length text
length-remove_at i text word h = omega (
  arith,
  length-append {0} (take i text) (drop (i + length word) text),
  length-take {0} i text,
  length-drop {0} (i + length word) text,
)

-- The loop ends by its own test, with no occurrence left.
remove_all-clean :
    (n : ℕ) (word text : List ℕ)
    → 0 < length word
    → length text < n
    → strstr (remove_all n word text) word ≡ false
unfolding remove_all
remove_all-clean zero word text w lt = absurd (omega arith)
remove_all-clean (suc n) word text w lt =
    by_hit (find 0 text word) refl
      (λ i less. remove_all-clean n word (remove_at i (length word) text) w less)
  where
    by_hit :
        (hit : Option ℕ)
        → find 0 text word ≡ hit
        → ((i : ℕ)
            → length (remove_at i (length word) text) < n
            → strstr (remove_all n word (remove_at i (length word) text)) word ≡ false)
        → strstr (at_hit hit (λ i. remove_all n word (remove_at i (length word) text)) text) word
          ≡ false
    by_hit none e rest = find-none 0 text word e
    by_hit (some i) e rest =
        let within = find-within 0 text word i e in
        let shorter = length-remove_at i text word (omega arith) in rest i (omega arith)

-- Whether LD_PRELOAD has an occurrence of the path.
abbrev pub names : Option (List ℕ) → List ℕ → Bool
names none fname = false
names (some preload) fname = strstr preload fname

-- If the path of the library is known and not empty, and `strdup` finds memory, the loop over its occurrences ends, and what
-- becomes of LD_PRELOAD does not have it anywhere, also where a removal joins two parts of it.
pub scrub_preload-clean :
    (preload : Option (List ℕ)) (fname : List ℕ)
    → 0 < length fname
    → names (scrub_preload true preload (some fname)) fname ≡ false
unfolding scrub_preload
scrub_preload-clean none fname h = refl
scrub_preload-clean (some preload) fname h =
    elim (Bool-cases (only_separators (remove_all (length preload + 1) fname preload))) [
      | inl e ↦ rw e refl
      | inr e ↦ rw e (remove_all-clean (length preload + 1) fname preload h (omega arith))
    ]
