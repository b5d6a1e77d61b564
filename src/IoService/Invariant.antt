-- ===== src/IoService/Invariant.antt =====
-- The flags of a tracked socket bound its callbacks in flight: a flag stays up after a callback that
-- threw.
pub mod Events
pub mod Jobs
pub mod Calls
use mathlib.Core.Path.{subst}
use tacopie.Typedefs.{fd_eq_iff, fd_eq}
use tacopie.Typedefs.{assign, erase, find-assign, find-erase}
use tacopie.Prelude.{
  refl, Bool-cases, inl, inr, sym, false, ◌∙◌, if◌then◌else◌, ℕ, zero, suc, ◌+◌, ◌-◌, ◌≤◌, ◌<◌, ◌≡◌,
  refl, sym, ap, ◌∙◌, ◌⊎◌, inl, inr, Bool, true, false, not, ◌&&◌, ◌||◌, List, [], ◌∷◌, ◌++◌,
  Option, none, some, arith, length, count, if◌then◌else◌, is_set, Bool-cases, Option-cases,
  Nat-cases, to_nat, ltb, ◌==◌, ◌↔◌, ◌≢◌,
}
use tacopie.Typedefs.{Fd, fd, invalid, fd_eq, member, find, assign, erase}
use tacopie.IoService.{IoService, TrackedSocket, Job, read_job, write_job}
use tacopie.IoService.System.{in_flight, is_read_of, is_write_of, is_queued}

module _ {C : Type 0} where
  abbrev pub reading : Option (TrackedSocket C) → ℕ
  reading none = 0
  reading (some t) = to_nat t.is_executing_read

  abbrev pub writing : Option (TrackedSocket C) → ℕ
  writing none = 0
  writing (some t) = to_nat t.is_executing_write

  -- A socket that is marked for removal has a flag up.
  abbrev pub IsWaiting : Option (TrackedSocket C) → Type 0
  IsWaiting none = Unit
  IsWaiting (some t) =
      t.marked_for_untrack ≡ true → (t.is_executing_read || t.is_executing_write) ≡ true

  -- The jobs in flight of each kind are at most as many as the flag of the socket says, and none if the
  -- descriptor is not tracked; and the socket is not left marked with nothing to wait for.
  pub record Matches (tasks : List (Option (Job C))) (running : List (Job C)) (f : Fd)
      (o : Option (TrackedSocket C)) : Type 0 where
    pub reads : in_flight (is_read_of f) tasks running ≤ reading o
    pub writes : in_flight (is_write_of f) tasks running ≤ writing o
    pub waits : IsWaiting o

  abbrev pub Inv : List (Fd × TrackedSocket C) → List (Option (Job C)) → List (Job C) → Type 0
  Inv m tasks running = (f : Fd) → Matches tasks running f (find f m)

  -- The jobs of the other descriptors are as many as before.
  abbrev pub SameElsewhere :
      Fd → List (Option (Job C)) → List (Option (Job C)) → List (Job C) → List (Job C) → Type 0
  SameElsewhere f tasks tasks' running running' =
      (j : Fd)
      → fd_eq j f ≡ false
      → (in_flight (is_read_of j) tasks' running' ≡ in_flight (is_read_of j) tasks running)
        × (in_flight (is_write_of j) tasks' running' ≡ in_flight (is_write_of j) tasks running)

  -- A change of one entry.
  pub change-Inv :
      (m m' : List (Fd × TrackedSocket C)) (tasks tasks' : List (Option (Job C)))
      (running running' : List (Job C)) (f : Fd) (o : Option (TrackedSocket C))
      → Inv m tasks running
      → ((j : Fd) → find j m' ≡ (if fd_eq j f then o else find j m))
      → SameElsewhere f tasks tasks' running running'
      → Matches tasks' running' f o
      → Inv m' tasks' running'
  change-Inv m m' tasks tasks' running running' f o inv found same here j =
      elim (Bool-cases (fd_eq j f)) [
        | inl e ↦
            let eq = (fd_eq_iff j f).0 e in
            rw (found j, e) (subst (λ k. Matches tasks' running' k o) (sym eq) here)
        | inr e ↦
            let old = inv j in
            let (same_reads, same_writes) = same j e in
            rw (found j, e)
              (record {
                reads = omega (arith, same_reads, old.reads);
                writes = omega (arith, same_writes, old.writes);
                waits = old.waits;
              })
      ]

  -- The same, where no job is added or taken away.
  pub assign-Inv :
      (m : List (Fd × TrackedSocket C)) (tasks : List (Option (Job C))) (running : List (Job C))
      (f : Fd) (t : TrackedSocket C)
      → Inv m tasks running
      → Matches tasks running f (some t)
      → Inv (assign f t m) tasks running
  assign-Inv m tasks running f t inv here =
      change-Inv m _ tasks tasks running running f (some t) inv (λ j. find-assign j f t m)
        (λ j e. (refl, refl)) here

  pub erase-Inv :
      (m : List (Fd × TrackedSocket C)) (tasks : List (Option (Job C))) (running : List (Job C))
      (f : Fd)
      → Inv m tasks running
      → Matches tasks running f none
      → Inv (erase f m) tasks running
  erase-Inv m tasks running f inv here =
      change-Inv m _ tasks tasks running running f none inv (λ j. find-erase j f m)
        (λ j e. (refl, refl)) here
