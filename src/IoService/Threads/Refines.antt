-- ===== src/IoService/Threads/Refines.antt =====
-- What the threads do one by one is what `System` allows.
use tacopie.Prelude.{
  ℕ, zero, suc, ◌≡◌, refl, sym, ap, ◌∙◌, Bool, List, [], ◌∷◌, ◌++◌, Option, none, some, inl, inr,
}
use tacopie.ThreadPool.{ThreadPool, fetched, fetch_task_or_stop}
use tacopie.ThreadPool.Workers.{WorkerPc, fetching, executing, exited, after_fetch}
use tacopie.IoService.{Job}
use tacopie.IoService.System.{
  fetched_job, System, Reach, start, next, calls, prepares, selects, processes, ends, fetches,
  finishes, throws,
}
use tacopie.SelfPipe.{SelfPipe}
use mathlib.Core.Path.{subst}
use tacopie.IoService.Threads.{
  thread_start, thread_next, ThreadReach, poller_ends, poller_processes, poller_selects,
  poller_prepares, caller_calls, thread_skips_empty, thread_catches, thread_ends_job,
  thread_fetches, ThreadStep, new_threads, Threads, running_job, running_jobs,
}
use tacopie.ThreadPool.Fetching.{fetched_cases}
use tacopie.IoService.Jobs.{finish}

module _ {C : Type 0} where
  -- A system as it is seen without its threads.
  abbrev pub without_threads : Threads C → System C
  without_threads s = record {
    service = s.service;
    running = running_jobs s.threads;
    poller = s.poller;
  }

  running_job-append :
      (pc : WorkerPc (Job C)) (jobs more : List (Job C))
      → running_job pc (jobs ++ more) ≡ running_job pc jobs ++ more
  running_job-append fetching jobs more = refl
  running_job-append (executing none) jobs more = refl
  running_job-append (executing (some job)) jobs more = refl
  running_job-append exited jobs more = refl

  running_jobs-append :
      (before behind : List (WorkerPc (Job C)))
      → running_jobs (before ++ behind) ≡ running_jobs before ++ running_jobs behind
  running_jobs-append [] behind = refl
  running_jobs-append (pc ∷ before) behind =
      ap (running_job pc) (running_jobs-append before behind) ∙ running_job-append pc _ _

  after_fetch-job :
      (p q : ThreadPool (Job C)) (stopped : Bool) (task : Option (Job C)) (jobs : List (Job C))
      → fetch_task_or_stop p ≡ fetched stopped task q
      → running_job (after_fetch stopped task) jobs ≡ fetched_job task jobs
  after_fetch-job p q stopped task jobs e = elim (fetched_cases p q stopped task e) [
    | inl leaves ↦ rw (leaves.1, leaves.2) refl
    | inr takes ↦ rw (takes.1) (by_task task)
  ]
    where
      by_task : (x : Option (Job C)) → running_job (executing x) jobs ≡ fetched_job x jobs
      by_task none = refl
      by_task (some job) = refl

  new_threads-idle :
      (pcs : List (WorkerPc (Job C))) (n : ℕ)
      → running_jobs (pcs ++ new_threads n) ≡ running_jobs pcs
  new_threads-idle [] zero = refl
  new_threads-idle [] (suc n) = new_threads-idle [] n
  new_threads-idle (pc ∷ pcs) n = ap (running_job pc) (new_threads-idle pcs n)

  -- The jobs of the threads, with one of them put apart.
  running_jobs-middle :
      (before : List (WorkerPc (Job C))) (pc : WorkerPc (Job C)) (behind : List (WorkerPc (Job C)))
      → running_jobs (before ++ pc ∷ behind)
        ≡ running_jobs before ++ running_job pc (running_jobs behind)
  running_jobs-middle before pc behind = running_jobs-append before (pc ∷ behind)

  -- A step of a thread is a step of `System`, or changes nothing that it sees.
  ThreadStep-refines :
      {notifier : SelfPipe} {s t : Threads C}
      → ThreadStep s t
      → Reach notifier (without_threads s)
      → Reach notifier (without_threads t)
  ThreadStep-refines {notifier} {s} (thread_fetches before behind stopped task p at e) r =
      subst
        (λ jobs. Reach notifier (record {
          service = record s.service { workers = p };
          running = jobs;
          poller = s.poller;
        }))
        (sym (
          running_jobs-middle before (after_fetch stopped task) behind
          ∙ ap (λ jobs. running_jobs before ++ jobs)
              (after_fetch-job s.service.workers p stopped task (running_jobs behind) e)))
        (next r (
          fetches (running_jobs before) (running_jobs behind) stopped task p
            (ap running_jobs at ∙ running_jobs-middle before fetching behind) e))
  ThreadStep-refines {notifier} {s} (thread_ends_job before behind job at) r =
      subst
        (λ jobs.
          Reach notifier
            (record { service = finish job s.service; running = jobs; poller = s.poller }))
        (sym (running_jobs-middle before fetching behind))
        (next r (
          finishes (running_jobs before) (running_jobs behind) job
            (ap running_jobs at ∙ running_jobs-middle before (executing (some job)) behind)))
  ThreadStep-refines {notifier} {s} (thread_catches before behind job at) r =
      subst
        (λ jobs. Reach notifier (record { service = s.service; running = jobs; poller = s.poller }))
        (sym (running_jobs-middle before fetching behind))
        (next r (
          throws (running_jobs before) (running_jobs behind) job
            (ap running_jobs at ∙ running_jobs-middle before (executing (some job)) behind)))
  ThreadStep-refines {notifier} {s} (thread_skips_empty before behind at) r =
      subst
        (λ jobs. Reach notifier (record { service = s.service; running = jobs; poller = s.poller }))
        (ap running_jobs at
          ∙ running_jobs-middle before (executing none) behind
          ∙ sym (running_jobs-middle before fetching behind))
        r
  ThreadStep-refines {notifier} {s} (caller_calls {t = t} call) r =
      subst (λ jobs. Reach notifier (record { service = t; running = jobs; poller = s.poller }))
        (sym (new_threads-idle s.threads _)) (next r (calls call))
  ThreadStep-refines (poller_prepares at going) r = next r (prepares at going)
  ThreadStep-refines (poller_selects bound answer at) r = next r (selects bound answer at)
  ThreadStep-refines (poller_processes at) r = next r (processes at)
  ThreadStep-refines (poller_ends at stopped) r = next r (ends at stopped)

  pub ThreadReach-refines-Reach :
      {notifier : SelfPipe} {s : Threads C}
      → ThreadReach notifier s
      → Reach notifier (without_threads s)
  ThreadReach-refines-Reach thread_start = start
  ThreadReach-refines-Reach (thread_next r st) = ThreadStep-refines st (ThreadReach-refines-Reach r)
