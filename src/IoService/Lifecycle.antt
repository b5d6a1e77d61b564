-- ===== src/IoService/Lifecycle.antt =====
-- What the service promises about one descriptor, as a machine of its own: whether it is tracked,
-- and which of its callbacks are started and have not returned; one that throws never returns.
-- io_service.cpp moves it; `Refines` shows how.
pub mod Refines
pub mod Endings
pub mod Entries
use tacopie.Prelude.{
  not, ◌&&◌, ◌≡◌, ◌⊎◌, inl, inr, Bool, true, false, ◌||◌, Option, none, some, arith, refl,
}
use tacopie.IoService.{TrackedSocket}

-- `alive reading writing marked`.
pub data Life : Type 0 where
  gone : Life
  alive : Bool → Bool → Bool → Life

-- A move of the machine. A callback starts only if the one of its kind has ended; a socket leaves when
-- nothing of it runs; a mark is set while something runs, and the end of the last callback acts on it.
pub data Move : Life → Life → Type 0 where
  stays : {x : Life} → Move x x
  appears : Move gone (alive false false false)
  starts_read :
      (writing marked : Bool) → Move (alive false writing marked) (alive true writing marked)
  starts_write :
      (reading marked : Bool) → Move (alive reading false marked) (alive reading true marked)
  starts_both : (marked : Bool) → Move (alive false false marked) (alive true true marked)
  ends_read : (marked : Bool) → Move (alive true true marked) (alive false true marked)
  ends_write : (marked : Bool) → Move (alive true true marked) (alive true false marked)
  ends_last_read : Move (alive true false false) (alive false false false)
  ends_last_write : Move (alive false true false) (alive false false false)
  leaves_by_read : Move (alive true false true) gone
  leaves_by_write : Move (alive false true true) gone
  marks :
      (reading writing : Bool)
      → (reading || writing) ≡ true
      → Move (alive reading writing false) (alive reading writing true)
  leaves : Move (alive false false false) gone

-- The moves by the flags alone.
pub raises :
    (reading writing marked r w : Bool)
    → Move (alive reading writing marked) (alive (reading || r) (writing || w) marked)
raises true true marked r w = stays
raises true false marked r false = stays
raises true false marked r true = starts_write true marked
raises false true marked false w = stays
raises false true marked true w = starts_read true marked
raises false false marked false false = stays
raises false false marked false true = starts_write false marked
raises false false marked true false = starts_read false marked
raises false false marked true true = starts_both marked

pub marks_busy :
    (reading writing marked : Bool)
    → (reading || writing) ≡ true
    → Move (alive reading writing marked) (alive reading writing true)
marks_busy reading writing true h = stays
marks_busy reading writing false h = marks reading writing h

pub leaves_quiet :
    (reading writing marked : Bool)
    → (reading || writing) ≡ false
    → (marked ≡ true → (reading || writing) ≡ true)
    → Move (alive reading writing marked) gone
leaves_quiet false false false h waits = leaves
leaves_quiet false false true h waits = absurd (ground (arith, waits refl))
leaves_quiet false true marked h waits = absurd (ground arith)
leaves_quiet true writing marked h waits = absurd (ground arith)

pub leaves_read :
    (writing marked : Bool) → (marked && not writing) ≡ true → Move (alive true writing marked) gone
leaves_read false true h = leaves_by_read
leaves_read false false h = absurd (ground arith)
leaves_read true marked h = absurd (ground arith)

pub leaves_write :
    (reading marked : Bool) → (marked && not reading) ≡ true → Move (alive reading true marked) gone
leaves_write false true h = leaves_by_write
leaves_write false false h = absurd (ground arith)
leaves_write true marked h = absurd (ground arith)

pub ends_kept_read :
    (writing marked : Bool)
    → (marked && not writing) ≡ false
    → Move (alive true writing marked) (alive false writing marked)
ends_kept_read true marked h = ends_read marked
ends_kept_read false false h = ends_last_read
ends_kept_read false true h = absurd (ground arith)

pub ends_kept_write :
    (reading marked : Bool)
    → (marked && not reading) ≡ false
    → Move (alive reading true marked) (alive reading false marked)
ends_kept_write true marked h = ends_write marked
ends_kept_write false false h = ends_last_write
ends_kept_write false true h = absurd (ground arith)

abbrev pub life : {C : Type 0} → Option (TrackedSocket C) → Life
life none = gone
life (some t) = alive t.is_executing_read t.is_executing_write t.marked_for_untrack
