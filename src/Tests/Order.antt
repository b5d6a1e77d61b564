-- ===== src/Tests/Order.antt =====
-- A round of poll() on two sockets, in either order.
use tacopie.Prelude.{◌≡◌, ◌≢◌, refl, ℕ, false, [], ◌∷◌, List, none, some, arith}
use tacopie.Tests.Service.{pipe, socket, ready}
use tacopie.Typedefs.{fd_eq_iff, find, Fd, fd, Distinct}
use tacopie.IoService.{IoService, TrackedSocket, create}
use tacopie.IoService.Poll.{poll_round, SelectAnswer}
use tacopie.IoService.Order.{find-poll_round, IsSetWise, SameSockets}
use tacopie.IoService.Invariant.Calls.{ServiceInv}

abbrev reader : TrackedSocket ℕ
reader = record {
  callback_read = some 1;
  is_executing_read = false;
  callback_write = none;
  is_executing_write = false;
  marked_for_untrack = false;
}

abbrev writer : TrackedSocket ℕ
writer = record reader { callback_read = none; callback_write = some 2 }

abbrev with_sockets : List (Fd × TrackedSocket ℕ) → IoService ℕ
with_sockets m = record (create pipe) {
  tracked = m;
  workers = record {
    worker_threads = 1;
    max_nb_threads = 1;
    nb_running_threads = 1;
    stop_requested = false;
    tasks = [];
  };
}

abbrev one_way : IoService ℕ
one_way = with_sockets ((fd 7, reader) ∷ (fd 8, writer) ∷ [])

abbrev other_way : IoService ℕ
other_way = with_sockets ((fd 8, writer) ∷ (fd 7, reader) ∷ [])

abbrev select : ℕ → List Fd → List Fd → SelectAnswer
select bound rd wr = ready

select-IsSetWise : IsSetWise select
select-IsSetWise bound bound' rd rd' wr wr' below below' same_rd same_wr = refl

one_way-Inv : ServiceInv one_way []
unfolding find create
one_way-Inv f = ground arith

other_way-Inv : ServiceInv other_way []
unfolding find create
other_way-Inv f = ground arith

same_sockets : SameSockets one_way other_way
unfolding find create
same_sockets = record {
  sockets = λ j. ground (arith, fd_eq_iff j (fd 7), fd_eq_iff j (fd 8));
  notifier_fd = refl;
}

socket_apart : socket ≢ fd 3
socket_apart = ground arith

one_way-Distinct : Distinct one_way.tracked
unfolding find create
one_way-Distinct = (refl, (refl, tt))

other_way-Distinct : Distinct other_way.tracked
unfolding find create
other_way-Distinct = (refl, (refl, tt))

find-poll_round_example :
    find socket (poll_round select one_way).tracked
    ≡ find socket (poll_round select other_way).tracked
unfolding create
find-poll_round_example =
    find-poll_round select one_way other_way [] [] socket select-IsSetWise one_way-Inv other_way-Inv
      same_sockets one_way-Distinct other_way-Distinct socket_apart
