-- ===== src/DocMenu/Data.antt =====
-- docs/html/menudata.js: the menu of this project's pages.
use tacopie.Prelude.{codes, String, List, [], ◌∷◌}
use tacopie.DocMenu.{Entry, entry, Children, absent, children, Entries, nil, cons}

abbrev pub entries_of : List Entry → Entries
entries_of [] = nil
entries_of (e ∷ es) = cons e (entries_of es)

abbrev pub submenu : List Entry → Children
submenu es = children (entries_of es)

abbrev pub item : String → String → Children → Entry
item text url below = entry (codes text) (codes url) below

abbrev pub main_menu_classes_class_members_all : List Entry
main_menu_classes_class_members_all =
    item "a" "functions.html#index_a" absent
    ∷ item "b" "functions.html#index_b" absent
    ∷ item "c" "functions.html#index_c" absent
    ∷ item "d" "functions.html#index_d" absent
    ∷ item "e" "functions.html#index_e" absent
    ∷ item "g" "functions.html#index_g" absent
    ∷ item "i" "functions.html#index_i" absent
    ∷ item "l" "functions.html#index_l" absent
    ∷ item "n" "functions.html#index_n" absent
    ∷ item "o" "functions.html#index_o" absent
    ∷ item "r" "functions.html#index_r" absent
    ∷ item "s" "functions.html#index_s" absent
    ∷ item "t" "functions.html#index_t" absent
    ∷ item "u" "functions.html#index_u" absent
    ∷ item "w" "functions.html#index_w" absent
    ∷ item "~" "functions.html#index_0x7e" absent
    ∷ []

abbrev pub main_menu_classes_class_members_functions : List Entry
main_menu_classes_class_members_functions =
    item "a" "functions_func.html#index_a" absent
    ∷ item "b" "functions_func.html#index_b" absent
    ∷ item "c" "functions_func.html#index_c" absent
    ∷ item "d" "functions_func.html#index_d" absent
    ∷ item "e" "functions_func.html#index_e" absent
    ∷ item "g" "functions_func.html#index_g" absent
    ∷ item "i" "functions_func.html#index_i" absent
    ∷ item "l" "functions_func.html#index_l" absent
    ∷ item "n" "functions_func.html#index_n" absent
    ∷ item "o" "functions_func.html#index_o" absent
    ∷ item "r" "functions_func.html#index_r" absent
    ∷ item "s" "functions_func.html#index_s" absent
    ∷ item "t" "functions_func.html#index_t" absent
    ∷ item "u" "functions_func.html#index_u" absent
    ∷ item "w" "functions_func.html#index_w" absent
    ∷ item "~" "functions_func.html#index_0x7e" absent
    ∷ []

abbrev pub main_menu_classes_class_members : List Entry
main_menu_classes_class_members =
    item "All" "functions.html" (submenu main_menu_classes_class_members_all)
    ∷ item "Functions" "functions_func.html" (submenu main_menu_classes_class_members_functions)
    ∷ item "Variables" "functions_vars.html" absent
    ∷ item "Typedefs" "functions_type.html" absent
    ∷ item "Enumerations" "functions_enum.html" absent
    ∷ []

abbrev pub main_menu_classes : List Entry
main_menu_classes =
    item "Class List" "annotated.html" absent
    ∷ item "Class Index" "classes.html" absent
    ∷ item "Class Hierarchy" "hierarchy.html" absent
    ∷ item "Class Members" "functions.html" (submenu main_menu_classes_class_members)
    ∷ []

abbrev pub main_menu_files : List Entry
main_menu_files = item "File List" "files.html" absent ∷ []

abbrev pub main_menu : List Entry
main_menu =
    item "Main Page" "index.html" absent
    ∷ item "Classes" "annotated.html" (submenu main_menu_classes)
    ∷ item "Files" "files.html" (submenu main_menu_files)
    ∷ []

abbrev pub menudata : Children
menudata = submenu main_menu
