-- ===== src/IoService/Default.antt =====
-- io_service.cpp: get_default_io_service and set_default_io_service. A shared pointer is the number of
-- its object in the order of their making; `none` is the null pointer. `pipe` is the self pipe that the
-- constructor of a service makes.
use tacopie.Prelude.{Option-cases, ℕ, ◌≡◌, List, [], ◌∷◌, ◌++◌, Option, none, some, length, arith}
use tacopie.IoService.{IoService, create}
use tacopie.SelfPipe.{SelfPipe}

pub record Defaults (C : Type 0) : Type 0 where
  pub default_instance : Option ℕ
  pub made : List (IoService C)

module _ {C : Type 0} where
  abbrev pub make_default : SelfPipe → Option ℕ → Defaults C → ℕ × Defaults C
  make_default pipe none d = (
    length d.made,
    record d { default_instance = some (length d.made); made = d.made ++ create pipe ∷ [] },
  )
  make_default pipe (some service) d = (service, d)

  unfoldable pub get_default_io_service : SelfPipe → Defaults C → ℕ × Defaults C
  get_default_io_service pipe d = make_default pipe d.default_instance d

  unfoldable pub set_default_io_service : Option ℕ → Defaults C → Defaults C
  set_default_io_service service d = record d { default_instance = service }

  -- Clients and servers that ask one after the other, with no call of the setter between, share one
  -- service, and at most one is made.
  pub get_default_io_service-shared :
      (pipe other : SelfPipe) (d : Defaults C)
      → get_default_io_service other (get_default_io_service pipe d).1
        ≡ get_default_io_service pipe d
  unfolding get_default_io_service
  get_default_io_service-shared pipe other d = ground (arith, Option-cases d.default_instance)
