-- ===== src/DocSearch/Build/Items.antt =====
-- The items on the page that createResults of docs/html/search/search.js makes: which element
-- `Item` and a number, or with `_c` and a second number, is the id of.
use tacopie.Prelude.{
  ℕ, zero, suc, ◌+◌, ◌<◌, ◌≡◌, refl, ap, ◌∙◌, Bool, true, false, ◌&&◌, List, [], ◌∷◌, ◌++◌, Option,
  none, some, if◌then◌else◌, codes, get_elem?, length, is_set, ltb, arith, ◌==◌, ==_iff, Bool-cases,
  inl, inr,
}
use mathlib.Core.Option
use tacopie.DocSearch.Box.{list_eq}
use tacopie.DocSearch.Numbers.{
  decimal, decimal-IsDigit, list_eq-decimal, list_eq-parts, list_eq-whole_part, list_eq-part_whole,
}
use tacopie.DocSearch.Panel.{Link, Datum, is_single, create_results, create_entry, child_count}
use tacopie.DocSearch.Build.{
  Node, or_else, item_text, child_text, item_link, child_link, create_nodes,
}
use tacopie.DocSearch.Build.Found.{
  or_else-none, find_in, find_children, find_beside, find_row, find_rows, find_in-create_nodes,
}

item_text-item_text : (e k : ℕ) → list_eq (item_text e) (item_text k) ≡ (e == k)
item_text-item_text e k = list_eq-decimal e k

item_text-child_text : (e k c : ℕ) → list_eq (item_text e) (child_text k c) ≡ false
item_text-child_text e k c =
    list_eq-whole_part (decimal e) (decimal k) (codes "c" ++ decimal c) (decimal-IsDigit e)

child_text-item_text : (e c k : ℕ) → list_eq (child_text e c) (item_text k) ≡ false
child_text-item_text e c k =
    list_eq-part_whole (decimal e) (decimal k) (codes "c" ++ decimal c) (decimal-IsDigit k)

child_text-child_text :
    (e i k c : ℕ) → list_eq (child_text e i) (child_text k c) ≡ (e == k && i == c)
child_text-child_text e i k c =
    list_eq-parts (decimal e) (decimal k) (codes "c" ++ decimal i) (codes "c" ++ decimal c)
      (decimal-IsDigit e) (decimal-IsDigit k)
    ∙ ap (λ b. b && list_eq (decimal i) (decimal c)) (list_eq-decimal e k)
    ∙ ap (λ b. e == k && b) (list_eq-decimal i c)

starts : (k e : ℕ) → k ≡ e + 0 → e ≡ k
starts k e at = omega arith

==_lt : (e k : ℕ) → e < k → (e == k) ≡ false
==_lt e k h = ground arith

==_gt : (e k : ℕ) → k < e → (e == k) ≡ false
==_gt e k h = ground arith

find_children-item_text : (k e c : ℕ) (ls : List Link) → find_children (item_text k) e c ls ≡ none
find_children-item_text k e c [] = refl
find_children-item_text k e c (l ∷ ls) =
    rw (child_text-item_text e c k) (find_children-item_text k e (c + 1) ls)

if_none : (b : Bool) → ◌≡◌ {A = Option Node} (if b then none else none) none
if_none true = refl
if_none false = refl

find_beside-item_text : (k e : ℕ) (ls : List Link) → find_beside (item_text k) e ls ≡ none
find_beside-item_text k e ls =
    ap (λ o. if is_single ls then none else o) (find_children-item_text k e 0 ls)
    ∙ if_none (is_single ls)

find_row-item_text :
    (k e : ℕ) (d : Datum)
    → find_row (item_text k) e d ≡ (if e == k then some (item_link e d) else none)
find_row-item_text k e d =
    rw (item_text-item_text e k, find_beside-item_text k e d.links)
      (or_else-none (if e == k then some (item_link e d) else none))

find_rows-item_text :
    (k e i : ℕ) (ds : List Datum)
    → k ≡ e + i
    → find_rows (item_text k) e ds ≡ Option.map (item_link k) (get_elem? ds i)
find_rows-item_text k e i [] at = refl
find_rows-item_text k e zero (d ∷ ds) at =
    ap (λ o. or_else o (find_rows (item_text k) (e + 1) ds)) (find_row-item_text k e d)
    ∙ rw (starts k e at, (==_iff k k).1 refl) refl
find_rows-item_text k e (suc i) (d ∷ ds) at =
    ap (λ o. or_else o (find_rows (item_text k) (e + 1) ds)) (find_row-item_text k e d)
    ∙ rw (==_lt e k (omega arith)) (find_rows-item_text k (e + 1) i ds (omega arith))

-- Which child `Item`, a number, `_c` and a number is the id of.
abbrev pub child_at : ℕ → ℕ → Option Datum → Option Node
child_at k c none = none
child_at k c (some d) =
    if is_single d.links then none else Option.map (child_link k c) (get_elem? d.links c)

find_children-other :
    (k c e j : ℕ) (ls : List Link) → (e == k) ≡ false → find_children (child_text k c) e j ls ≡ none
find_children-other k c e j [] other = refl
find_children-other k c e j (l ∷ ls) other =
    rw (child_text-child_text e j k c, other) (find_children-other k c e (j + 1) ls other)

find_children-child_text :
    (k c j i : ℕ) (ls : List Link)
    → c ≡ j + i
    → find_children (child_text k c) k j ls ≡ Option.map (child_link k c) (get_elem? ls i)
find_children-child_text k c j i [] at = refl
find_children-child_text k c j zero (l ∷ ls) at =
    rw (child_text-child_text k j k c, (==_iff k k).1 refl, starts c j at, (==_iff c c).1 refl) refl
find_children-child_text k c j (suc i) (l ∷ ls) at =
    rw (child_text-child_text k j k c, (==_iff k k).1 refl, ==_lt j c (omega arith))
      (find_children-child_text k c (j + 1) i ls (omega arith))

find_row-other : (k c e : ℕ) (d : Datum) → (e == k) ≡ false → find_row (child_text k c) e d ≡ none
find_row-other k c e d other = rw (item_text-child_text e k c) (
    ap (λ o. if is_single d.links then none else o) (find_children-other k c e 0 d.links other)
    ∙ if_none (is_single d.links))

find_row-child_text : (k c : ℕ) (d : Datum) → find_row (child_text k c) k d ≡ child_at k c (some d)
find_row-child_text k c d = rw (item_text-child_text k k c) (
    ap (λ o. if is_single d.links then none else o)
      (find_children-child_text k c 0 c d.links (omega arith)))

-- No row after that of the item has a child of it.
find_rows-after : (k c e : ℕ) (ds : List Datum) → k < e → find_rows (child_text k c) e ds ≡ none
find_rows-after k c e [] later = refl
find_rows-after k c e (d ∷ ds) later =
    ap (λ o. or_else o (find_rows (child_text k c) (e + 1) ds))
      (find_row-other k c e d (==_gt e k later))
    ∙ find_rows-after k c (e + 1) ds (omega arith)

find_rows-child_text :
    (k c e i : ℕ) (ds : List Datum)
    → k ≡ e + i
    → find_rows (child_text k c) e ds ≡ child_at k c (get_elem? ds i)
find_rows-child_text k c e i [] at = refl
find_rows-child_text k c e zero (d ∷ ds) at = rw (starts k e at) (
    ap (or_else (find_row (child_text k c) k d)) (find_rows-after k c (k + 1) ds (omega arith))
    ∙ or_else-none (find_row (child_text k c) k d)
    ∙ find_row-child_text k c d)
find_rows-child_text k c e (suc i) (d ∷ ds) at =
    ap (λ o. or_else o (find_rows (child_text k c) (e + 1) ds))
      (find_row-other k c e d (==_lt e k (omega arith)))
    ∙ find_rows-child_text k c (e + 1) i ds (omega arith)

ltb-suc : (i n : ℕ) → ltb i n ≡ ltb (suc i) (suc n)
ltb-suc i n = ground arith

is_set-get_elem? :
    {A B : Type 0} (f : A → B) (xs : List A) (i : ℕ)
    → is_set (Option.map f (get_elem? xs i)) ≡ ltb i (length xs)
is_set-get_elem? f [] i = ground arith
is_set-get_elem? f (x ∷ xs) zero = ground arith
is_set-get_elem? f (x ∷ xs) (suc i) = is_set-get_elem? f xs i ∙ ltb-suc i (length xs)

is_set-child_at :
    (k c : ℕ) (ds : List Datum) (e : ℕ)
    → is_set (child_at k c (get_elem? ds e)) ≡ ltb c (child_count (create_results ds) e)
unfolding create_results create_entry
is_set-child_at k c [] e = ground arith
is_set-child_at k c (d ∷ ds) zero = elim (Bool-cases (is_single d.links)) [
  | inl single ↦ rw single (ground arith)
  | inr several ↦ rw several (is_set-get_elem? (child_link k c) d.links c)
]
is_set-child_at k c (d ∷ ds) (suc e) = is_set-child_at k c ds e

-- After createResults, the element of the id `Item` and a number is the link of the entry of that
-- number, if there is one; that of `Item`, a number, `_c` and a second number is the child of the second
-- number of an entry that has not one link, and none of any other; and that element is there exactly
-- when the second number is below the number of children that the moves of the keys go by.
pub find-create_nodes :
    (ds : List Datum) (e c : ℕ)
    → (find_in (item_text e) (create_nodes ds) ≡ Option.map (item_link e) (get_elem? ds e))
      × (find_in (child_text e c) (create_nodes ds) ≡ child_at e c (get_elem? ds e))
      × (is_set (find_in (child_text e c) (create_nodes ds))
          ≡ ltb c (child_count (create_results ds) e))
find-create_nodes ds e c = (
  find_in-create_nodes (codes "tem" ++ decimal e) ds ∙ find_rows-item_text e 0 e ds (omega arith),
  find_in-create_nodes (codes "tem" ++ (decimal e ++ (codes "_c" ++ decimal c))) ds
      ∙ find_rows-child_text e c 0 e ds (omega arith),
  ap is_set (
        find_in-create_nodes (codes "tem" ++ (decimal e ++ (codes "_c" ++ decimal c))) ds
        ∙ find_rows-child_text e c 0 e ds (omega arith))
      ∙ is_set-child_at e c ds e,
)
