-- ===== src/Typedefs.antt =====
-- includes/tacopie/utils/typedefs.hpp: file descriptors, on a platform where they are ints. The
-- descriptors that the system gives out are not negative; `invalid` is __TACOPIE_INVALID_FD, -1.
use tacopie.Prelude.{
  ◌++◌, refl, ℕ, ◌≡◌, ◌↔◌, Bool, true, false, ◌||◌, List, [], ◌∷◌, Option, none, some, arith, ◌==◌,
  if◌then◌else◌,
}

pub data Fd : Type 0 where
  invalid : Fd
  fd : ℕ → Fd

abbrev pub fd_eq : Fd → Fd → Bool
fd_eq invalid invalid = true
fd_eq (fd a) (fd b) = a == b
fd_eq _ _ = false

pub fd_eq_iff : (f g : Fd) → (fd_eq f g ≡ true) ↔ (f ≡ g)
fd_eq_iff invalid invalid = ground arith
fd_eq_iff invalid (fd b) = ground arith
fd_eq_iff (fd a) invalid = ground arith
fd_eq_iff (fd a) (fd b) = ground arith

pub fd_eq_refl : (f : Fd) → fd_eq f f ≡ true
fd_eq_refl f = (fd_eq_iff f f).1 refl

-- Membership in a list of descriptors: FD_ISSET for a set that FD_ZERO and FD_SET built up.
abbrev pub member : Fd → List Fd → Bool
member f [] = false
member f (g ∷ gs) = fd_eq f g || member f gs

-- `std::unordered_map<fd_t, V>`, as a list of its entries in the order of iteration, which the
-- standard leaves open: `find`, `operator[]` with an assignment, and `erase`.
module _ {V : Type 0} where
  unfoldable pub find : Fd → List (Fd × V) → Option V
  find f [] = none
  find f ((g, v) ∷ m) = if fd_eq f g then some v else find f m

  unfoldable pub assign : Fd → V → List (Fd × V) → List (Fd × V)
  assign f v [] = (f, v) ∷ []
  assign f v ((g, w) ∷ m) = if fd_eq f g then (g, v) ∷ m else (g, w) ∷ assign f v m

  unfoldable pub erase : Fd → List (Fd × V) → List (Fd × V)
  erase f [] = []
  erase f ((g, w) ∷ m) = if fd_eq f g then erase f m else (g, w) ∷ erase f m

  pub find-assign :
      (j f : Fd) (v : V) (m : List (Fd × V))
      → find j (assign f v m) ≡ (if fd_eq j f then some v else find j m)
  unfolding find assign
  find-assign j f v [] = refl
  find-assign j f v ((g, w) ∷ m) =
      ground (arith, fd_eq_iff j f, fd_eq_iff f g, fd_eq_iff j g, find-assign j f v m)

  pub find-erase :
      (j f : Fd) (m : List (Fd × V)) → find j (erase f m) ≡ (if fd_eq j f then none else find j m)
  unfolding find erase
  find-erase j f [] = ground arith
  find-erase j f ((g, w) ∷ m) =
      ground (arith, fd_eq_iff j f, fd_eq_iff f g, fd_eq_iff j g, find-erase j f m)

-- No descriptor has two entries.
module _ {V : Type 0} where
  abbrev pub Distinct : List (Fd × V) → Type 0
  Distinct [] = Unit
  Distinct ((f, v) ∷ m) = (find f m ≡ none) × Distinct m

  pub assign-Distinct : (f : Fd) (v : V) (m : List (Fd × V)) → Distinct m → Distinct (assign f v m)
  unfolding assign find
  assign-Distinct f v [] d = (refl, tt)
  assign-Distinct f v ((g, w) ∷ m) d =
      ground (arith, fd_eq_iff f g, fd_eq_iff g f, find-assign g f v m, assign-Distinct f v m d.1)

  pub erase-Distinct : (f : Fd) (m : List (Fd × V)) → Distinct m → Distinct (erase f m)
  unfolding erase find
  erase-Distinct f [] d = tt
  erase-Distinct f ((g, w) ∷ m) d = ground (arith, find-erase g f m, erase-Distinct f m d.1)

pub member-snoc : (j f : Fd) (fs : List Fd) → member j (fs ++ f ∷ []) ≡ (member j fs || fd_eq j f)
member-snoc j f [] = ground arith
member-snoc j f (g ∷ fs) = ground (arith, member-snoc j f fs)
