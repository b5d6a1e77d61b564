-- ===== src/DocSections/Folders/Stripes.antt =====
-- docs/html/dynsections.js, updateStripes: which rows get the stripe.
use tacopie.Prelude.{
  ℕ, ◌+◌, ◌%◌, ◌≡◌, refl, ap, Bool, true, false, not, ◌&&◌, List, [], ◌∷◌, ◌++◌, ◌==◌, count, arith,
  to_nat, ◌∙◌,
}
use tacopie.DocSections.Query.{
  Query, even, each, filter, is_among, with_class, look-each_add_class, look-each_remove_class,
}
use tacopie.DocSections.Folders.{elements, Row, is_visible, update_stripes, every_other}

module _ {E D : Type 0} (q : Query E D) where
  -- Whether it is the turn of an element with `n` elements before it.
  abbrev pub is_turn : Bool → ℕ → Bool
  is_turn taken n = (n + to_nat (not taken)) % 2 == 0

  is_among-every_other :
      (v : E → Bool) (taken : Bool) (e : E) (es : List E)
      → is_among q e es ≡ false
      → is_among q e (every_other taken (filter v es)) ≡ false
  is_among-every_other v taken e [] h = ground arith
  is_among-every_other v true e (f ∷ es) h =
      ground (arith, is_among-every_other v true e es, is_among-every_other v false e es)
  is_among-every_other v false e (f ∷ es) h =
      ground (arith, is_among-every_other v true e es, is_among-every_other v false e es)

  every_other_lem :
      (v : E → Bool) (taken : Bool) (before : List E) (e : E) (behind : List E)
      → is_among q e before ≡ false
      → is_among q e behind ≡ false
      → is_among q e (every_other taken (filter v (before ++ e ∷ behind)))
        ≡ (v e && is_turn taken (count v before))
  every_other_lem v true [] e behind first rest = ground (
    arith,
    q.same_iff e e,
    is_among-every_other v true e behind,
    is_among-every_other v false e behind,
  )
  every_other_lem v false [] e behind first rest = ground (
    arith,
    q.same_iff e e,
    is_among-every_other v true e behind,
    is_among-every_other v false e behind,
  )
  every_other_lem v true (f ∷ before) e behind first rest =
      ground
        (arith, every_other_lem v true before e behind, every_other_lem v false before e behind)
  every_other_lem v false (f ∷ before) e behind first rest =
      ground
        (arith, every_other_lem v true before e behind, every_other_lem v false before e behind)

  count-same : (v w : E → Bool) (es : List E) → ((e : E) → v e ≡ w e) → count v es ≡ count w es
  count-same v w [] h = refl
  count-same v w (e ∷ es) h = ground (arith, h e, count-same v w es h)

  is_among-middle :
      (before : List E) (e : E) (behind : List E) → is_among q e (before ++ e ∷ behind) ≡ true
  is_among-middle [] e behind = ground (arith, q.same_iff e e)
  is_among-middle (f ∷ before) e behind = ground (arith, is_among-middle before e behind)

  -- Without the stripes the rows are as visible as with them.
  is_visible-plain :
      (es : List E) (d : D) (e : E)
      → is_visible q (each (q.remove_class even) es d) e ≡ is_visible q d e
  is_visible-plain es d e = ground (arith, look-each_remove_class q even es e d)

  stripes : List E → D → D
  stripes es d =
      let plain = each (q.remove_class even) es d in
      each (q.add_class even) (every_other true (filter (is_visible q plain) es)) plain

  look-stripes :
      (before : List E) (e : E) (behind : List E) (d : D)
      → is_among q e before ≡ false
      → is_among q e behind ≡ false
      → q.look e (stripes (before ++ e ∷ behind) d)
        ≡ with_class even
            (is_visible q d e && (count (is_visible q d) before % 2 == 0))
            (q.look e d)
  unfolding stripes
  look-stripes before e behind d first rest =
      let rows = before ++ e ∷ behind in
      let plain = each (q.remove_class even) rows d in
      ground (
        arith,
        look-each_add_class q even (every_other true (filter (is_visible q plain) rows)) e plain,
        every_other_lem (is_visible q plain) true before e behind first rest,
        look-each_remove_class q even rows e d,
        is_among-middle before e behind,
        is_visible-plain rows d e,
        count-same (is_visible q plain) (is_visible q d) before (is_visible-plain rows d),
      )

  -- Of a row that stands once among the rows of the directory, updateStripes changes the stripe only:
  -- the row is striped exactly if it is visible and an even number of visible rows stand before it.
  pub look-update_stripes :
      (rows : List (Row E)) (before : List E) (e : E) (behind : List E) (d : D)
      → elements rows ≡ before ++ e ∷ behind
      → is_among q e before ≡ false
      → is_among q e behind ≡ false
      → q.look e (update_stripes q rows d)
        ≡ with_class even
            (is_visible q d e && (count (is_visible q d) before % 2 == 0))
            (q.look e d)
  unfolding update_stripes stripes
  look-update_stripes rows before e behind d at first rest =
      ap (λ es. q.look e (stripes es d)) at ∙ look-stripes before e behind d first rest

  -- The stripes never change what is visible.
  pub is_visible-update_stripes :
      (rows : List (Row E)) (d : D) (e : E)
      → is_visible q (update_stripes q rows d) e ≡ is_visible q d e
  unfolding update_stripes
  is_visible-update_stripes rows d e =
      let plain = each (q.remove_class even) (elements rows) d in
      ground (
        arith,
        look-each_add_class q even (every_other true (filter (is_visible q plain) (elements rows)))
            e plain,
        is_visible-plain (elements rows) d e,
      )

  -- But for the stripe, updateStripes leaves every element as it is.
  pub look-striped :
      (rows : List (Row E)) (d : D) (e : E)
      → with_class even false (q.look e (update_stripes q rows d))
        ≡ with_class even false (q.look e d)
  unfolding update_stripes
  look-striped rows d e =
      let plain = each (q.remove_class even) (elements rows) d in
      ground (
        arith,
        look-each_add_class q even (every_other true (filter (is_visible q plain) (elements rows)))
            e plain,
        look-each_remove_class q even (elements rows) e d,
      )
