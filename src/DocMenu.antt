-- ===== src/DocMenu.antt =====
-- docs/html/menu.js: the menu of the documentation's pages, built as a text of HTML, and the calls of
-- jQuery that put it in the page. docs/html/menudata.js is `DocMenu.Data`.
pub mod Data
pub mod Html
use tacopie.Prelude.{Bool, true, false, List, [], ◌∷◌, ◌++◌, ℕ, codes, if◌then◌else◌}

-- The objects of the menu's data: a text and an address, and the property `children`, if it is there.
mutual
  pub data Entry : Type 0 where
    entry : List ℕ → List ℕ → Children → Entry

  pub data Children : Type 0 where
    absent : Children
    children : Entries → Children

  pub data Entries : Type 0 where
    nil : Entries
    cons : Entry → Entries → Entries

-- `makeTree`, and its loop.
unfoldable mutual
  pub make_tree : List ℕ → Children → List ℕ
  make_tree rel absent = []
  make_tree rel (children entries) = codes "<ul>" ++ (make_items rel entries ++ codes "</ul>")

  pub make_items : List ℕ → Entries → List ℕ
  make_items rel nil = []
  make_items rel (cons e entries) = make_item rel e ++ make_items rel entries

  pub make_item : List ℕ → Entry → List ℕ
  make_item rel (entry text url below) =
      codes "<li><a href=\""
      ++ (rel
          ++ (url
              ++ (codes "\">"
                  ++ (text ++ (codes "</a>" ++ (make_tree rel below ++ codes "</li>"))))))

-- The boxes of the search: for a server that searches, and for a page that does.
unfoldable pub server_box : List ℕ → List ℕ → List ℕ → List ℕ
server_box rel search_page value =
    codes
      "<li style=\"float:right\"><div id=\"MSearchBox\" class=\"MSearchBoxInactive\"><div class=\"left\"><form id=\"FSearchBox\" action=\""
    ++ (search_page
        ++ (codes "\" method=\"get\"><img id=\"MSearchSelect\" src=\""
            ++ (rel
                ++ (codes
                      "search/mag.png\" alt=\"\"/><input type=\"text\" id=\"MSearchField\" name=\"query\" value=\""
                    ++ (value
                        ++ (codes
                            "\" size=\"20\" accesskey=\"S\" onfocus=\"searchBox.OnSearchFieldFocus(true)\" onblur=\"searchBox.OnSearchFieldFocus(false)\"></form></div><div class=\"right\"></div></div></li>"))))))

unfoldable pub client_box : List ℕ → List ℕ → List ℕ
client_box rel value =
    codes
      "<li style=\"float:right\"><div id=\"MSearchBox\" class=\"MSearchBoxInactive\"><span class=\"left\"><img id=\"MSearchSelect\" src=\""
    ++ (rel
        ++ (codes
              "search/mag_sel.png\" onmouseover=\"return searchBox.OnSearchSelectShow()\" onmouseout=\"return searchBox.OnSearchSelectHide()\" alt=\"\"/><input type=\"text\" id=\"MSearchField\" value=\""
            ++ (value
                ++ (codes
                      "\" accesskey=\"S\" onfocus=\"searchBox.OnSearchFieldFocus(true)\" onblur=\"searchBox.OnSearchFieldFocus(false)\" onkeyup=\"searchBox.OnSearchFieldChange(event)\"/></span><span class=\"right\"><a id=\"MSearchClose\" href=\"javascript:searchBox.CloseResultsWindow()\"><img id=\"MSearchCloseImg\" border=\"0\" src=\""
                    ++ (rel ++ (codes "search/close.png\" alt=\"\"/></a></span></div></li>"))))))

-- A call of jQuery: `$('#id').append(html)`; the calls on the first child of the navigation, which
-- gets the menu's class and id; and the call that turns the list into a menu.
pub data Call : Type 0 where
  append : List ℕ → List ℕ → Call
  dress_first_child : List ℕ → List ℕ → List ℕ → Call
  smartmenus : List ℕ → Call

unfoldable pub search_calls : Bool → Bool → List ℕ → List ℕ → List ℕ → List Call
unfolding server_box client_box
search_calls false server_side rel search_page search = []
search_calls true true rel search_page value =
    append (codes "main-menu") (server_box rel search_page value) ∷ []
search_calls true false rel search_page value =
    append (codes "main-menu") (client_box rel value) ∷ []

-- The calls that `initMenu` makes, in order, with the menu's data.
unfoldable pub init_menu : Children → List ℕ → Bool → Bool → List ℕ → List ℕ → List Call
unfolding make_tree search_calls
init_menu data_of_menu rel search_enabled server_side search_page value =
    append (codes "main-nav") (make_tree rel data_of_menu)
    ∷ dress_first_child (codes "main-nav") (codes "sm sm-dox") (codes "main-menu")
    ∷ (search_calls search_enabled server_side rel search_page value
        ++ smartmenus (codes "main-menu") ∷ [])
