-- ===== src/ThreadPool.antt =====
-- lsp/threadpool.h and lsp/threadpool.cpp as a state machine. An action is what one thread does while it
-- holds the lock, or the end of a task; a sequence of actions is an interleaving. A pool is waited for by
-- one thread at a time. `A` is the type of the tasks.
pub mod Tasks
pub mod Threads
pub mod Sound
mod Tests
use lsp_framework.Base.{
  ℕ, zero, suc, Bool, true, false, not, ◌&&◌, ◌||◌, Option, none, some, List, [], ◌∷◌, ◌++◌, ltb,
  if◌then◌else◌, length,
}

pub data Worker (A : Type 0) : Type 0 where
  -- In front of the lock, or waiting for the event.
  idle : Worker A
  running : A → Worker A
  exited : Worker A

pub record ThreadPool (A : Type 0) : Type 0 where
  pub wait_for_new_tasks : Bool
  pub max_threads : ℕ
  pub threads : List (Worker A)
  pub task_queue : List A
  -- The tasks in the order in which they were taken from the queue, and in which they ended.
  pub started : List A
  pub finished : List A

pub data Action (A : Type 0) : Type 0 where
  -- `addTask`
  add_task : A → Action A
  -- The thread with the number takes a task, ends it, or leaves its loop.
  take_task : ℕ → Action A
  finish_task : ℕ → Action A
  leave : ℕ → Action A
  -- The first and the last locked part of `waitUntilFinished`.
  stop_waiting : Action A
  join : Action A

abbrev pub idle_threads : {A : Type 0} → ℕ → List (Worker A)
idle_threads zero = []
idle_threads (suc n) = idle ∷ idle_threads n

abbrev pub at_least_one : ℕ → ℕ
at_least_one zero = 1
at_least_one (suc n) = suc n

abbrev pub is_nil : {B : Type 0} → List B → Bool
is_nil [] = true
is_nil (x ∷ xs) = false

module _ {A : Type 0} where
  -- The constructor.
  abbrev pub thread_pool : ℕ → ℕ → ThreadPool A
  thread_pool initial_threads max_threads = record {
    wait_for_new_tasks = true;
    max_threads = at_least_one max_threads;
    threads = idle_threads initial_threads;
    task_queue = [];
    started = [];
    finished = [];
  }

  abbrev pub add_thread : ThreadPool A → ThreadPool A
  add_thread p = record p { threads = p.threads ++ idle ∷ [] }

  abbrev pub needs_thread : ThreadPool A → Bool
  needs_thread p =
      (ltb 1 (length p.task_queue) && ltb (length p.threads) p.max_threads) || is_nil p.threads

  abbrev pub grow : ThreadPool A → ThreadPool A
  grow p = if needs_thread p then add_thread p else p

  -- The thread with a number, changed by a function that tells if the thread can do so.
  unfoldable pub update_thread :
      ℕ → (Worker A → Option (Worker A)) → List (Worker A) → Option (List (Worker A))
  update_thread i g [] = none
  update_thread zero g (w ∷ ws) = elim (g w) [ none ↦ none | some w' ↦ some (w' ∷ ws) ]
  update_thread (suc i) g (w ∷ ws) = elim (update_thread i g ws) [
    | none ↦ none
    | some ws' ↦ some (w ∷ ws')
  ]

  abbrev pub taking : A → Worker A → Option (Worker A)
  taking t idle = some (running t)
  taking t _ = none

  abbrev pub ending : Worker A → Option (Worker A)
  ending (running t) = some idle
  ending _ = none

  abbrev pub leaving : Worker A → Option (Worker A)
  leaving idle = some exited
  leaving _ = none

  unfoldable pub task_at : ℕ → List (Worker A) → List A
  task_at i [] = []
  task_at zero (running t ∷ ws) = t ∷ []
  task_at zero (_ ∷ ws) = []
  task_at (suc i) (w ∷ ws) = task_at i ws

  abbrev pub all_exited : List (Worker A) → Bool
  all_exited [] = true
  all_exited (exited ∷ ws) = all_exited ws
  all_exited (_ ∷ ws) = false

  abbrev pub with_threads :
      (List (Worker A) → ThreadPool A) → Option (List (Worker A)) → Option (ThreadPool A)
  with_threads g none = none
  with_threads g (some ws) = some (g ws)

  abbrev pub take_from : ℕ → List A → ThreadPool A → Option (ThreadPool A)
  unfolding update_thread
  take_from i [] p = none
  take_from i (t ∷ ts) p =
      with_threads (λ ws. record p { threads = ws; task_queue = ts; started = p.started ++ t ∷ [] })
        (update_thread i (taking t) p.threads)

  -- None if the thread would have to wait.
  unfoldable pub step : Action A → ThreadPool A → Option (ThreadPool A)
  unfolding update_thread task_at take_from
  step (add_task t) p =
      if p.wait_for_new_tasks
      then some (grow (record p { task_queue = p.task_queue ++ t ∷ [] }))
      else none
  step (take_task i) p = take_from i p.task_queue p
  step (finish_task i) p =
      with_threads (λ ws. record p { threads = ws; finished = p.finished ++ task_at i p.threads })
        (update_thread i ending p.threads)
  step (leave i) p =
      if p.wait_for_new_tasks || not (is_nil p.task_queue)
      then none
      else with_threads (λ ws. record p { threads = ws }) (update_thread i leaving p.threads)
  step stop_waiting p = some (record p { wait_for_new_tasks = false })
  step join p =
      if not p.wait_for_new_tasks && all_exited p.threads
      then some (record p { threads = []; wait_for_new_tasks = true })
      else none

  unfoldable pub run : List (Action A) → ThreadPool A → Option (ThreadPool A)
  unfolding step
  run [] p = some p
  run (a ∷ rest) p = elim (step a p) [ none ↦ none | some p' ↦ run rest p' ]

  -- The tasks that are given to the pool, in the order.
  abbrev pub added : List (Action A) → List A
  added [] = []
  added (add_task t ∷ rest) = t ∷ added rest
  added (_ ∷ rest) = added rest
