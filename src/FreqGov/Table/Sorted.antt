-- ===== src/FreqGov/Table/Sorted.antt =====
-- The in-place insertion sort of `read_available_frequencies`: it is insertion into a sorted list.
use coresight_trace.Base.{
  ℕ, suc, ◌+◌, ◌-◌, ◌≤◌, ◌≡◌, refl, sym, ap, ap₂, ◌∙◌, inl, inr, List, [], ◌∷◌, length, get_or, set,
  ltb, if◌then◌else◌, All, All-and, All-intro, Bool-cases, arith,
}
use coresight_trace.FreqGov.Table.{shift, insert_step, sort_from, sort}

-- The array as the sorted part, last entry first, and the part that is left.
abbrev pub onto : List ℕ → List ℕ → List ℕ
onto [] s = s
onto (q ∷ qs) s = onto qs (q ∷ s)

get_or-onto : (q s : List ℕ) (j d : ℕ) → get_or (onto q s) (length q + j) d ≡ get_or s j d
get_or-onto [] s j d = ap (λ i. get_or s i d) (omega arith)
get_or-onto (x ∷ q) s j d =
    ap (λ i. get_or (onto q (x ∷ s)) i d) (omega arith) ∙ get_or-onto q (x ∷ s) (suc j) d

set-onto : (q s : List ℕ) (j v : ℕ) → set (onto q s) (length q + j) v ≡ onto q (set s j v)
set-onto [] s j v = ap (λ i. set s i v) (omega arith)
set-onto (x ∷ q) s j v =
    ap (λ i. set (onto q (x ∷ s)) i v) (omega arith) ∙ set-onto q (x ∷ s) (suc j) v

get_or-onto_at : (q s : List ℕ) (d x : ℕ) → get_or (onto q (x ∷ s)) (length q) d ≡ x
get_or-onto_at q s d x =
    ap (λ i. get_or (onto q (x ∷ s)) i d) (omega arith) ∙ get_or-onto q (x ∷ s) 0 d

set-onto_at : (q s : List ℕ) (v x : ℕ) → set (onto q (x ∷ s)) (length q) v ≡ onto q (v ∷ s)
set-onto_at q s v x = ap (λ i. set (onto q (x ∷ s)) i v) (omega arith) ∙ set-onto q (x ∷ s) 0 v

set-onto_next :
    (q s : List ℕ) (v x y : ℕ) → set (onto q (x ∷ y ∷ s)) (suc (length q)) v ≡ onto q (x ∷ v ∷ s)
set-onto_next q s v x y =
    ap (λ i. set (onto q (x ∷ y ∷ s)) i v) (omega arith) ∙ set-onto q (x ∷ y ∷ s) 1 v

-- Insertion into a descending list.
unfoldable pub insert_down : ℕ → List ℕ → List ℕ
insert_down key [] = key ∷ []
insert_down key (q ∷ qs) = if ltb key q then q ∷ insert_down key qs else key ∷ q ∷ qs

place : ℕ → List ℕ → ℕ → List ℕ
unfolding shift
place key t i = let (t', k) = shift key t i in set t' k key

-- The inner loop and the write of the key, from an array whose slot `i` may be overwritten.
place-onto :
    (key : ℕ) (q s : List ℕ) (w : ℕ)
    → place key (onto q (w ∷ s)) (length q) ≡ onto (insert_down key q) s
unfolding place insert_down
place-onto key [] s w = refl
place-onto key (x ∷ q) s w = elim (Bool-cases (ltb key x)) [
  | inl less ↦
      rw (get_or-onto_at q (w ∷ s) 0 x, less)
        (rw (set-onto_next q s x x w) (place-onto key q (x ∷ s) x))
  | inr more ↦ rw (get_or-onto_at q (w ∷ s) 0 x, more) (set-onto_next q s key x w)
]

insert_step-onto :
    (q s : List ℕ) (x : ℕ) → insert_step (onto q (x ∷ s)) (length q) ≡ onto (insert_down x q) s
unfolding insert_step place
insert_step-onto q s x = rw (get_or-onto_at q s 0 x) (place-onto x q s x)

length-insert_down : (key : ℕ) (q : List ℕ) → length (insert_down key q) ≡ length q + 1
unfolding insert_down
length-insert_down key [] = omega arith
length-insert_down key (x ∷ q) = ground (arith, length-insert_down key q)

-- What the outer loop computes: the entries that are left go into the sorted part one by one.
unfoldable pub insert_all : List ℕ → List ℕ → List ℕ
insert_all [] q = q
insert_all (x ∷ s) q = insert_all s (insert_down x q)

sort_from-onto :
    (s q : List ℕ) → sort_from (onto q s) (length q) (length s) ≡ onto (insert_all s q) []
unfolding sort_from insert_all
sort_from-onto [] q = refl
sort_from-onto (x ∷ s) q =
    ap₂ (λ t i. sort_from t i (length s)) (insert_step-onto q s x) (sym (length-insert_down x q))
    ∙ sort_from-onto s (insert_down x q)

-- The in-place sort inserts each entry into the sorted part before it.
pub sort-eq-insert_all : (t : List ℕ) → sort t ≡ onto (insert_all t []) []
unfolding sort sort_from insert_all insert_down
sort-eq-insert_all [] = refl
sort-eq-insert_all (x ∷ s) =
    let rounds : length (x ∷ s) - 1 ≡ length s = omega arith in
    ap (λ n. sort_from (x ∷ s) 1 n) rounds ∙ sort_from-onto s (x ∷ [])

-- Neighbours and all later entries are in order.
abbrev pub Ascending : List ℕ → Type 0
Ascending [] = Unit
Ascending (x ∷ xs) = All (λ y. x ≤ y) xs × Ascending xs

abbrev Descending : List ℕ → Type 0
Descending [] = Unit
Descending (x ∷ xs) = All (λ y. y ≤ x) xs × Descending xs

All-le_trans : (x y : ℕ) (q : List ℕ) → x ≤ y → All (λ z. z ≤ x) q → All (λ z. z ≤ y) q
All-le_trans x y [] h a = tt
All-le_trans x y (z ∷ q) h a = (omega arith, All-le_trans x y q h a.1)

pub All-insert_down {κ} :
    (P : ℕ → Type κ) (key : ℕ) (q : List ℕ) → P key → All P q → All P (insert_down key q)
unfolding insert_down
All-insert_down P key [] h a = (h, tt)
All-insert_down P key (x ∷ q) h a = elim (Bool-cases (ltb key x)) [
  | inl less ↦ rw less (a.0, All-insert_down P key q h a.1)
  | inr more ↦ rw more (h, a)
]

insert_down-Descending : (key : ℕ) (q : List ℕ) → Descending q → Descending (insert_down key q)
unfolding insert_down
insert_down-Descending key [] d = (tt, tt)
insert_down-Descending key (x ∷ q) d = elim (Bool-cases (ltb key x)) [
  | inl less ↦
      rw less
        (All-insert_down (λ y. y ≤ x) key q (ground arith) d.0, insert_down-Descending key q d.1)
  | inr more ↦ rw more ((ground arith, All-le_trans x key q (ground arith) d.0), d)
]

insert_all-Descending : (s q : List ℕ) → Descending q → Descending (insert_all s q)
unfolding insert_all
insert_all-Descending [] q d = d
insert_all-Descending (x ∷ s) q d =
    insert_all-Descending s (insert_down x q) (insert_down-Descending x q d)

onto-Ascending :
    (q s : List ℕ)
    → Descending q
    → Ascending s
    → All (λ x. All (λ y. x ≤ y) s) q
    → Ascending (onto q s)
onto-Ascending [] s d a h = a
onto-Ascending (x ∷ q) s d a h =
    onto-Ascending q (x ∷ s) d.1 (h.0, a) (All-and (λ y. y ≤ x) (λ y. All (λ z. y ≤ z) s) q d.0 h.1)

pub sort-Ascending : (t : List ℕ) → Ascending (sort t)
sort-Ascending t = rw (sort-eq-insert_all t) (
    onto-Ascending (insert_all t []) [] (insert_all-Descending t [] tt) tt
      (All-intro (λ x. All (λ y. x ≤ y) []) (λ x. tt) (insert_all t [])))
