-- ===== src/DocSearch/Box/Marks.antt =====
-- The marks of the filter menu of the search box (SelectItemSet of docs/html/search/search.js).
use tacopie.Prelude.{
  get_elem?, ℕ, zero, suc, ◌+◌, ◌<◌, ◌≡◌, refl, ap, ◌∙◌, inl, inr, Bool, false, List, [], ◌∷◌,
  Option, none, some, arith, length, if◌then◌else◌, Bool-cases, ◌==◌,
}
use tacopie.DocSearch.Box.{Child, select_item_count, select_item_set}

-- The items of the menu, without its other children.
abbrev pub items : List Child → List Child
items [] = []
items (c ∷ cs) = if c.is_select_item then c ∷ items cs else items cs

abbrev pub marked_at : Option Child → Bool
marked_at none = false
marked_at (some c) = c.marked

select_item_count-items : (cs : List Child) → select_item_count cs ≡ length (items cs)
unfolding select_item_count
select_item_count-items [] = refl
select_item_count-items (c ∷ cs) = ground (arith, select_item_count-items cs)

pub select_item_count-select_item_set :
    (id at : ℕ) (cs : List Child)
    → select_item_count (select_item_set id at cs) ≡ select_item_count cs
unfolding select_item_count select_item_set
select_item_count-select_item_set id at [] = refl
select_item_count-select_item_set id at (c ∷ cs) = elim (Bool-cases c.is_select_item) [
  | inl h ↦ rw (h) (ap suc_of (select_item_count-select_item_set id (suc at) cs))
  | inr h ↦ rw (h) (ap zero_of (select_item_count-select_item_set id at cs))
]
  where
    suc_of : ℕ → ℕ
    suc_of n = 1 + n

    zero_of : ℕ → ℕ
    zero_of n = 0 + n

==-at : (a b id : ℕ) → a ≡ b → (a == id) ≡ (b == id)
==-at a b id same = ap (λ n. n == id) same

items-select_item_set :
    (id at k : ℕ) (cs : List Child)
    → k < select_item_count cs
    → marked_at (get_elem? (items (select_item_set id at cs)) k) ≡ (at + k == id)
unfolding select_item_count select_item_set
items-select_item_set id at k [] h = absurd (omega arith)
items-select_item_set id at zero (c ∷ cs) h = elim (Bool-cases c.is_select_item) [
  | inl item ↦ rw (item) (==-at at (at + 0) id (omega arith))
  | inr other ↦ rw (other) (items-select_item_set id at 0 cs (ground (arith, h)))
]
items-select_item_set id at (suc k) (c ∷ cs) h = elim (Bool-cases c.is_select_item) [
  | inl item ↦ rw (item) (
      items-select_item_set id (suc at) k cs (ground (arith, h))
      ∙ ==-at (suc at + k) (at + suc k) id (omega arith))
  | inr other ↦ rw (other) (items-select_item_set id at (suc k) cs (ground (arith, h)))
]

-- `SelectItemSet` leaves the bullet of exactly the item of the given number, of the menu's items.
pub marked_at-select_item_set :
    (id k : ℕ) (cs : List Child)
    → k < select_item_count cs
    → marked_at (get_elem? (items (select_item_set id 0 cs)) k) ≡ (k == id)
marked_at-select_item_set id k cs h =
    items-select_item_set id 0 k cs h ∙ ==-at (0 + k) k id (omega arith)
