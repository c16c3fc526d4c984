-- ===== src/Forksrv/Scrub.antt =====
-- scrub_forksrv_env of libforksrv/libforksrv.c: what becomes of LD_PRELOAD. A text is its bytes.
use coresight_trace.Base.{
  not, ℕ, zero, suc, ◌+◌, Bool, true, ◌&&◌, ◌||◌, Option, none, some, List, [], ◌∷◌, ◌++◌, length,
  take, drop, ◌==◌, if◌then◌else◌,
}
use coresight_trace.Maps.Select.{starts_with}

-- `strstr`: the place of the first occurrence.
abbrev pub find : ℕ → List ℕ → List ℕ → Option ℕ
find i [] word = if starts_with word [] then some i else none
find i (c ∷ text) word =
    let rest = find (i + 1) text word in if starts_with word (c ∷ text) then some i else rest

-- `memmove(hit, hit + len, strlen(hit + len) + 1)`
abbrev pub remove_at : ℕ → ℕ → List ℕ → List ℕ
remove_at i len text = take i text ++ drop (i + len) text

abbrev pub at_hit : Option ℕ → (ℕ → List ℕ) → List ℕ → List ℕ
at_hit none next text = text
at_hit (some i) next text = next i

-- The loop over the occurrences, on fuel.
unfoldable pub remove_all : ℕ → List ℕ → List ℕ → List ℕ
remove_all zero word text = text
remove_all (suc n) word text =
    at_hit (find 0 text word) (λ i. remove_all n word (remove_at i (length word) text)) text

-- `rest[strspn(rest, ": ")] == '\0'`
abbrev pub only_separators : List ℕ → Bool
only_separators [] = true
only_separators (c ∷ text) = ((c == 58) || (c == 32)) && only_separators text

-- The new LD_PRELOAD, `none` if it is unset; `dli_fname` is the path of the library, if it is known, and
-- `strdup_ok` is whether `strdup` finds memory.
unfoldable pub scrub_preload : Bool → Option (List ℕ) → Option (List ℕ) → Option (List ℕ)
scrub_preload strdup_ok none dli_fname = none
scrub_preload strdup_ok (some preload) none = some preload
scrub_preload strdup_ok (some preload) (some fname) =
    let rest = remove_all (length preload + 1) fname preload in
    if not strdup_ok then some preload else if only_separators rest then none else some rest
