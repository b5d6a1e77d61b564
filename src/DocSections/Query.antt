-- ===== src/DocSections/Query.antt =====
-- The calls of jQuery in docs/html/dynsections.js, as an interface: what the script calls, and what
-- the documentation of jQuery says of it, for elements none of which contains another and whose
-- surroundings are shown.
use tacopie.Prelude.{
  ℕ, ◌≡◌, ◌↔◌, refl, Bool, true, false, ◌||◌, List, [], ◌∷◌, if◌then◌else◌, arith,
}

-- The classes that the script names.
pub data Class : Type 0 where
  even opened closed iconfopen iconfclosed arrow : Class

-- What the script sees of an element. A text is the list of its UTF-16 code units.
pub record Look : Type 0 where
  pub visible : Bool
  pub is_even : Bool
  pub is_opened : Bool
  pub is_closed : Bool
  pub is_iconfopen : Bool
  pub is_iconfclosed : Bool
  pub is_arrow : Bool
  pub src : List ℕ
  pub html : List ℕ

abbrev pub has_class : Class → Look → Bool
has_class even l = l.is_even
has_class opened l = l.is_opened
has_class closed l = l.is_closed
has_class iconfopen l = l.is_iconfopen
has_class iconfclosed l = l.is_iconfclosed
has_class arrow l = l.is_arrow

abbrev pub with_class : Class → Bool → Look → Look
with_class even b l = record l { is_even = b }
with_class opened b l = record l { is_opened = b }
with_class closed b l = record l { is_closed = b }
with_class iconfopen b l = record l { is_iconfopen = b }
with_class iconfclosed b l = record l { is_iconfclosed = b }
with_class arrow b l = record l { is_arrow = b }

abbrev pub with_visible : Bool → Look → Look
with_visible b l = record l { visible = b }

abbrev pub with_src : List ℕ → Look → Look
with_src t l = record l { src = t }

abbrev pub with_html : List ℕ → Look → Look
with_html t l = record l { html = t }

-- A document of type `D` with elements of type `E`, and the calls on one element. `show` is also
-- `css('display','table-row')`, and `hide` is `css('display','none')`. `by_id` is `$('#'+id)`.
pub record Query (E D : Type 0) : Type 0 where
  pub same : E → E → Bool
  pub same_iff : (e f : E) → (same e f ≡ true) ↔ (e ≡ f)
  pub by_id : List ℕ → List E
  pub look : E → D → Look
  pub show : E → D → D
  pub hide : E → D → D
  pub add_class : Class → E → D → D
  pub remove_class : Class → E → D → D
  pub set_src : List ℕ → E → D → D
  pub set_html : List ℕ → E → D → D
  pub look-show :
      (e f : E) (d : D)
      → look e (show f d) ≡ (if same e f then with_visible true (look e d) else look e d)
  pub look-hide :
      (e f : E) (d : D)
      → look e (hide f d) ≡ (if same e f then with_visible false (look e d) else look e d)
  pub look-add_class :
      (c : Class) (e f : E) (d : D)
      → look e (add_class c f d) ≡ (if same e f then with_class c true (look e d) else look e d)
  pub look-remove_class :
      (c : Class) (e f : E) (d : D)
      → look e (remove_class c f d) ≡ (if same e f then with_class c false (look e d) else look e d)
  pub look-set_src :
      (t : List ℕ) (e f : E) (d : D)
      → look e (set_src t f d) ≡ (if same e f then with_src t (look e d) else look e d)
  pub look-set_html :
      (t : List ℕ) (e f : E) (d : D)
      → look e (set_html t f d) ≡ (if same e f then with_html t (look e d) else look e d)

-- A call on a selection of elements is one on each of them, in order.
abbrev pub each : {E D : Type 0} → (E → D → D) → List E → D → D
each call [] d = d
each call (e ∷ es) d = each call es (call e d)

-- The elements of a selection that pass a test: `filter`.
abbrev pub filter : {E : Type 0} → (E → Bool) → List E → List E
filter test [] = []
filter test (e ∷ es) = let rest = filter test es in if test e then e ∷ rest else rest

module _ {E D : Type 0} (q : Query E D) where
  abbrev pub is_among : E → List E → Bool
  is_among e [] = false
  is_among e (f ∷ fs) = q.same e f || is_among e fs

  -- What calls on a selection do to an element, where one call does `change` to its own element.
  pub look-each :
      (call : E → D → D) (change : Look → Look)
      → ((e f : E) (d : D)
          → q.look e (call f d) ≡ (if q.same e f then change (q.look e d) else q.look e d))
      → ((l : Look) → change (change l) ≡ change l)
      → (es : List E) (e : E) (d : D)
      → q.look e (each call es d) ≡ (if is_among e es then change (q.look e d) else q.look e d)
  look-each call change one twice [] e d = refl
  look-each call change one twice (f ∷ fs) e d =
      ground (arith, look-each call change one twice fs e (call f d), one e f d, twice (q.look e d))

  pub look-each_show :
      (es : List E) (e : E) (d : D)
      → q.look e (each q.show es d)
        ≡ (if is_among e es then with_visible true (q.look e d) else q.look e d)
  look-each_show es e d = look-each q.show (with_visible true) q.look-show (λ l. refl) es e d

  pub look-each_hide :
      (es : List E) (e : E) (d : D)
      → q.look e (each q.hide es d)
        ≡ (if is_among e es then with_visible false (q.look e d) else q.look e d)
  look-each_hide es e d = look-each q.hide (with_visible false) q.look-hide (λ l. refl) es e d

  with_class_idem :
      (c : Class) (b : Bool) (l : Look) → with_class c b (with_class c b l) ≡ with_class c b l
  with_class_idem even b l = refl
  with_class_idem opened b l = refl
  with_class_idem closed b l = refl
  with_class_idem iconfopen b l = refl
  with_class_idem iconfclosed b l = refl
  with_class_idem arrow b l = refl

  pub look-each_add_class :
      (c : Class) (es : List E) (e : E) (d : D)
      → q.look e (each (q.add_class c) es d)
        ≡ (if is_among e es then with_class c true (q.look e d) else q.look e d)
  look-each_add_class c es e d =
      look-each (q.add_class c) (with_class c true) (q.look-add_class c) (with_class_idem c true) es
        e d

  pub look-each_remove_class :
      (c : Class) (es : List E) (e : E) (d : D)
      → q.look e (each (q.remove_class c) es d)
        ≡ (if is_among e es then with_class c false (q.look e d) else q.look e d)
  look-each_remove_class c es e d =
      look-each (q.remove_class c) (with_class c false) (q.look-remove_class c)
        (with_class_idem c false) es e d

  pub look-each_set_src :
      (t : List ℕ) (es : List E) (e : E) (d : D)
      → q.look e (each (q.set_src t) es d)
        ≡ (if is_among e es then with_src t (q.look e d) else q.look e d)
  look-each_set_src t es e d =
      look-each (q.set_src t) (with_src t) (q.look-set_src t) (λ l. refl) es e d

  pub look-each_set_html :
      (t : List ℕ) (es : List E) (e : E) (d : D)
      → q.look e (each (q.set_html t) es d)
        ≡ (if is_among e es then with_html t (q.look e d) else q.look e d)
  look-each_set_html t es e d =
      look-each (q.set_html t) (with_html t) (q.look-set_html t) (λ l. refl) es e d
