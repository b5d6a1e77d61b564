-- ===== src/DocSearch/Moves.antt =====
-- The moves between the items of a page of results (NavNext and NavPrev of docs/html/search/search.js).
use tacopie.Prelude.{
  ℕ, zero, suc, ◌+◌, ◌-◌, ◌≤◌, ◌<◌, ◌≡◌, refl, sym, ap, ◌∙◌, ◌⊎◌, inl, inr, true, false, List, [],
  ◌∷◌, Option, none, some, arith, length, get_elem?, is_set, Bool-cases, Nat-cases,
}
use mathlib.Core.Path.{subst}
use tacopie.DocSearch.Results.{Row, next_in, nav_next, nav_prev, row_shown, is_shown, drop}

-- What a move forward from the index is to find: the least index from there whose row is shown.
abbrev pub NextIs : List Row → ℕ → Option ℕ → Type 0
NextIs rows index none = (k : ℕ) → index ≤ k → row_shown (get_elem? rows k) ≡ false
NextIs rows index (some j) =
    (index ≤ j)
    × (row_shown (get_elem? rows j) ≡ true)
    × ((k : ℕ) → index ≤ k → k < j → row_shown (get_elem? rows k) ≡ false)

-- What a move backward to below the index is to find: the greatest such index whose row is shown.
abbrev pub PrevIs : List Row → ℕ → Option ℕ → Type 0
PrevIs rows index none = (k : ℕ) → k < index → row_shown (get_elem? rows k) ≡ false
PrevIs rows index (some j) =
    (j < index)
    × (row_shown (get_elem? rows j) ≡ true)
    × ((k : ℕ) → j < k → k < index → row_shown (get_elem? rows k) ≡ false)

row_shown-at :
    (rows : List Row) (a b : ℕ)
    → a ≡ b
    → row_shown (get_elem? rows a) ≡ row_shown (get_elem? rows b)
row_shown-at rows a b same = ap (λ n. row_shown (get_elem? rows n)) same

get_elem?-drop :
    (i : ℕ) (rows : List Row) (k : ℕ)
    → row_shown (get_elem? (drop i rows) k) ≡ row_shown (get_elem? rows (i + k))
get_elem?-drop zero rows k = row_shown-at rows k (0 + k) (omega arith)
get_elem?-drop (suc i) [] k = refl
get_elem?-drop (suc i) (row ∷ rows) k =
    get_elem?-drop i rows k ∙ row_shown-at (row ∷ rows) (suc (i + k)) (suc i + k) (omega arith)

-- The same of the rows that begin at an offset.
abbrev pub NextFrom : List Row → ℕ → Option ℕ → Type 0
NextFrom rows offset none = (k : ℕ) → row_shown (get_elem? rows k) ≡ false
NextFrom rows offset (some j) =
    (offset ≤ j)
    × (row_shown (get_elem? rows (j - offset)) ≡ true)
    × ((k : ℕ) → offset + k < j → row_shown (get_elem? rows k) ≡ false)

NextFrom-cons :
    (row : Row) (rows : List Row) (offset : ℕ) (o : Option ℕ)
    → is_shown row.display ≡ false
    → NextFrom rows (suc offset) o
    → NextFrom (row ∷ rows) offset o
NextFrom-cons row rows offset none hidden all = everywhere
  where
    everywhere : (k : ℕ) → row_shown (get_elem? (row ∷ rows) k) ≡ false
    everywhere zero = hidden
    everywhere (suc k) = all k
NextFrom-cons row rows offset (some j) hidden (low, found, before) = (
  omega arith,
  row_shown-at (row ∷ rows) (j - offset) (suc (j - suc offset)) (omega arith) ∙ found,
  earlier,
)
  where
    earlier : (k : ℕ) → offset + k < j → row_shown (get_elem? (row ∷ rows) k) ≡ false
    earlier zero h = hidden
    earlier (suc k) h = before k (omega arith)

NextFrom-here :
    (row : Row) (rows : List Row) (offset : ℕ)
    → is_shown row.display ≡ true
    → NextFrom (row ∷ rows) offset (some offset)
NextFrom-here row rows offset shown = (
  omega arith,
  row_shown-at (row ∷ rows) (offset - offset) 0 (omega arith) ∙ shown,
  λ k h. absurd (omega arith),
)

next_in-NextFrom : (rows : List Row) (offset : ℕ) → NextFrom rows offset (next_in rows offset)
unfolding next_in
next_in-NextFrom [] offset = λ k. refl
next_in-NextFrom (row ∷ rows) offset = elim (Bool-cases (is_shown row.display)) [
  | inl visible ↦ rw (visible) (NextFrom-here row rows offset visible)
  | inr concealed ↦ rw (concealed) (
      NextFrom-cons row rows offset (next_in rows (suc offset)) concealed
        (next_in-NextFrom rows (suc offset)))
]

NextIs-from :
    (rows : List Row) (index : ℕ) (o : Option ℕ)
    → NextFrom (drop index rows) index o
    → NextIs rows index o
NextIs-from rows index none all = λ k low.
    row_shown-at rows k (index + (k - index)) (omega arith)
    ∙ sym (get_elem?-drop index rows (k - index))
    ∙ all (k - index)
NextIs-from rows index (some j) (low, found, before) = (
  low,
  row_shown-at rows j (index + (j - index)) (omega arith)
      ∙ sym (get_elem?-drop index rows (j - index))
      ∙ found,
  λ k from to.
      row_shown-at rows k (index + (k - index)) (omega arith)
      ∙ sym (get_elem?-drop index rows (k - index))
      ∙ before (k - index) (omega arith),
)

-- `NavNext` finds the first item from the index on whose row is shown, and nothing exactly if there is none.
pub nav_next-NextIs : (rows : List Row) (index : ℕ) → NextIs rows index (nav_next rows index)
unfolding nav_next
nav_next-NextIs rows index =
    NextIs-from rows index (next_in (drop index rows) index)
      (next_in-NextFrom (drop index rows) index)

PrevIs-suc :
    (rows : List Row) (index : ℕ) (o : Option ℕ)
    → row_shown (get_elem? rows index) ≡ false
    → PrevIs rows index o
    → PrevIs rows (suc index) o
PrevIs-suc rows index none hidden all = λ k h. elim (Nat-cases (index - k)) [
  | inl z ↦ row_shown-at rows k index (omega arith) ∙ hidden
  | inr p ↦ all k (omega arith)
]
PrevIs-suc rows index (some j) hidden (low, found, after) = (
  omega arith,
  found,
  λ k from to. elim (Nat-cases (index - k)) [
    | inl z ↦ row_shown-at rows k index (omega arith) ∙ hidden
    | inr p ↦ after k from (omega arith)
  ],
)

true-false : true ≡ false → ⊥
true-false h = ground (arith, h)

get_elem?-inside :
    (rows : List Row) (index : ℕ) → index < length rows → is_set (get_elem? rows index) ≡ true
get_elem?-inside [] index h = absurd (omega arith)
get_elem?-inside (row ∷ rows) zero h = refl
get_elem?-inside (row ∷ rows) (suc index) h = get_elem?-inside rows index (omega arith)

-- `NavPrev`, from an index up to that of the last item, finds the last item before it whose row is
-- shown, and nothing exactly if there is none.
pub nav_prev-PrevIs :
    (rows : List Row) (index : ℕ) → index ≤ length rows → PrevIs rows index (nav_prev rows index)
unfolding nav_prev
nav_prev-PrevIs rows zero h = λ k low. absurd (omega arith)
nav_prev-PrevIs rows (suc index) h = elim (Bool-cases (row_shown (get_elem? rows index))) [
  | inl visible ↦
      rw (get_elem?-inside rows index (omega arith), visible)
        (omega arith, visible, λ k from to. absurd (omega arith))
  | inr concealed ↦
      rw (get_elem?-inside rows index (omega arith), concealed)
        (PrevIs-suc rows index (nav_prev rows index) concealed
          (nav_prev-PrevIs rows index (omega arith)))
]

PrevIs-back :
    (rows : List Row) (i j : ℕ) (o : Option ℕ)
    → row_shown (get_elem? rows i) ≡ true
    → NextIs rows (suc i) (some j)
    → PrevIs rows j o
    → o ≡ some i
PrevIs-back rows i j none here (low, found, between) all =
    absurd (true-false (sym here ∙ all i (omega arith)))
PrevIs-back rows i j (some k) here (low, found, between) (below, back, after) =
    ap some (meets (Nat-cases (i - k)) (Nat-cases (k - i)))
  where
    meets : (i - k ≡ 0) ⊎ (0 < i - k) → (k - i ≡ 0) ⊎ (0 < k - i) → k ≡ i
    meets (inr p) x = absurd (true-false (sym here ∙ after i (omega arith) (omega arith)))
    meets (inl p) (inr q) = absurd (true-false (sym back ∙ between k (omega arith) (omega arith)))
    meets (inl p) (inl q) = omega arith

shown-inside : (rows : List Row) (j : ℕ) → row_shown (get_elem? rows j) ≡ true → j < length rows
shown-inside [] j h = absurd (true-false (sym h))
shown-inside (row ∷ rows) zero h = omega arith
shown-inside (row ∷ rows) (suc j) h = omega (arith, shown-inside rows j h)

-- From an item whose row is shown, a move down to the next item and a move up again lead back to it.
pub nav_prev-nav_next :
    (rows : List Row) (i j : ℕ)
    → row_shown (get_elem? rows i) ≡ true
    → nav_next rows (suc i) ≡ some j
    → nav_prev rows j ≡ some i
nav_prev-nav_next rows i j here next =
    PrevIs-back rows i j (nav_prev rows j) here down
      (nav_prev-PrevIs rows j (omega (arith, shown-inside rows j (down.1))))
  where
    down : NextIs rows (suc i) (some j)
    down = subst (NextIs rows (suc i)) next (nav_next-NextIs rows (suc i))
