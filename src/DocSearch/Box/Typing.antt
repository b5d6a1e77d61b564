-- ===== src/DocSearch/Box/Typing.antt =====
-- What the search box does on a key in its field, and how it comes to rest.
use tacopie.Prelude.{
  ℕ, ◌≡◌, refl, ◌∙◌, inl, inr, Bool, false, not, ◌&&◌, ◌||◌, [], Option, none, some, arith,
  Bool-cases, ◌==◌,
}
use tacopie.DocSearch.Results.{shown, hidden, is_empty}
use tacopie.DocSearch.Box.{
  nothing, first_result, result_item, Box, blank, strip_spaces, activate, close_results_window,
  on_search_field_change, on_search_select_show, focus_item, focus_result, first_item,
  schedule_search, list_eq,
}

-- The panel is closed: nothing is shown of it, and nothing is left of the last search.
abbrev pub AtRest : Box → Type 0
AtRest b =
    (b.panel_active ≡ false)
    × (b.search_active ≡ false)
    × (b.field_value ≡ b.search_label)
    × (b.results_window ≡ hidden)
    × (b.close_button ≡ hidden)
    × (b.last_search_value ≡ [])
    × (b.last_results_page ≡ blank)

-- Closing the results, and Escape in the field, each bring the box to rest; Escape also stops the timer.
pub close_results_window-AtRest :
    (b : Box) (shift : Bool)
    → AtRest (close_results_window b)
      × AtRest (on_search_field_change 27 shift b)
      × ((on_search_field_change 27 shift b).key_timeout ≡ false)
unfolding close_results_window on_search_field_change activate
close_results_window-AtRest b shift =
    ((refl, refl, refl, refl, refl, refl, refl), (refl, refl, refl, refl, refl, refl, refl), refl)

activate-key_timeout : (active : Bool) (b : Box) → (activate active b).key_timeout ≡ b.key_timeout
unfolding activate
activate-key_timeout active b = ground arith

schedule_search-key_timeout :
    (b : Box)
    → b.key_timeout ≡ false
    → (schedule_search b).key_timeout ≡ (
        not (list_eq (strip_spaces b.field_value) b.last_search_value)
        && not (is_empty (strip_spaces b.field_value)))
schedule_search-key_timeout b idle = ground arith

focus_item-key_timeout : (o : Option ℕ) (b : Box) → (focus_item o b).key_timeout ≡ b.key_timeout
focus_item-key_timeout none b = refl
focus_item-key_timeout (some at) b = refl

abbrev is_due : Box → Bool
is_due b =
    not (list_eq (strip_spaces b.field_value) b.last_search_value)
    && not (is_empty (strip_spaces b.field_value))

schedule_search-focus_result :
    (o : Option ℕ) (b : Box)
    → b.key_timeout ≡ false
    → (schedule_search (focus_result o b)).key_timeout ≡ is_due b
schedule_search-focus_result none b idle = schedule_search-key_timeout b idle
schedule_search-focus_result (some at) b idle =
    schedule_search-key_timeout (record b { focus = result_item at }) idle

-- After a key in the field a search is due exactly when the key was neither Escape nor a shifted
-- Down or Enter, and the text without its spaces is neither empty nor the one searched for last.
pub on_search_field_change-key_timeout :
    (code : ℕ) (shift : Bool) (b : Box)
    → (on_search_field_change code shift b).key_timeout ≡ (
        not (code == 27)
        && not (shift && (code == 40 || code == 13))
        && (not (list_eq (strip_spaces b.field_value) b.last_search_value)
            && not (is_empty (strip_spaces b.field_value))))
unfolding on_search_field_change on_search_select_show
on_search_field_change-key_timeout code shift b = elim (Bool-cases (code == 40 || code == 13)) [
  | inl enter ↦ elim (Bool-cases shift) [
    | inl shifted ↦
        rw (enter, shifted)
          (focus_item-key_timeout (first_item b.children 0)
              (record b { select_window = shown; hide_timeout = false; key_timeout = false })
            ∙ ground arith)
    | inr unshifted ↦
        rw (enter, unshifted)
          (schedule_search-focus_result (first_result b.results) (record b { key_timeout = false })
              refl
            ∙ ground arith)
  ]
  | inr other ↦ elim (Bool-cases (code == 27)) [
    | inl escape ↦
        rw (other, escape)
          (activate-key_timeout false (record b {
            key_timeout = false;
            last_search_value = [];
            results_window = hidden;
            close_button = hidden;
            focus = nothing;
          }))
    | inr plain ↦
        rw (other, plain)
          (schedule_search-key_timeout (record b { key_timeout = false }) refl ∙ ground arith)
  ]
]
