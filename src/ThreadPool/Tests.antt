-- ===== src/ThreadPool/Tests.antt =====
-- The pool of lsp/threadpool.cpp with one thread and two tasks.
use lsp_framework.Base.{false, true, ℕ, ◌≤◌, ◌≡◌, ◌++◌, refl, List, [], ◌∷◌, length, arith}
use lsp_framework.ThreadPool.{
  exited, ThreadPool, Action, add_task, take_task, finish_task, leave, stop_waiting, at_least_one,
  update_thread, task_at, take_from, step, run, added,
}
use lsp_framework.ThreadPool.Tasks.{run-started}
use lsp_framework.ThreadPool.Sound.{run-max_threads, join-started}

abbrev two_tasks : List (Action ℕ)
two_tasks =
    add_task 7
    ∷ add_task 8
    ∷ take_task 0
    ∷ stop_waiting
    ∷ finish_task 0
    ∷ take_task 0
    ∷ finish_task 0
    ∷ leave 0
    ∷ []

abbrev worked : ThreadPool ℕ
worked = record {
  wait_for_new_tasks = false;
  max_threads = 1;
  threads = exited ∷ [];
  task_queue = [];
  started = 7 ∷ 8 ∷ [];
  finished = 7 ∷ 8 ∷ [];
}

run-started_example : worked.started ++ worked.task_queue ≡ added two_tasks
unfolding run step update_thread task_at take_from
run-started_example = run-started 0 1 two_tasks worked refl

run-max_threads_example : length worked.threads ≤ at_least_one 1
unfolding run step update_thread task_at take_from
run-max_threads_example = run-max_threads 0 1 two_tasks worked (omega arith) refl

join-started_example : (worked.started ≡ added two_tasks) × (worked.task_queue ≡ [])
unfolding run step update_thread task_at take_from
join-started_example =
    join-started 0 1 two_tasks worked (record worked { threads = []; wait_for_new_tasks = true })
      (omega arith) refl refl
