-- ===== src/ThreadPool/Sound.antt =====
-- The number of threads and the end of `waitUntilFinished` in lsp/threadpool.cpp.
use mathlib.Core.Path.{subst}
use lsp_framework.Base.{
  Option-cases, ℕ, zero, suc, ◌<◌, ◌≤◌, ◌≡◌, ◌≢◌, refl, sym, ap, ◌∙◌, false, not, ◌&&◌, ◌||◌, some,
  List, [], ◌∷◌, ◌++◌, ltb, length, length-append, append-nil, All, All-append, Bool-cases, inl,
  inr, some_injective, none_ne_some, arith,
}
use lsp_framework.ThreadPool.{
  idle, ThreadPool, Action, add_task, take_task, finish_task, leave, stop_waiting, join,
  idle_threads, at_least_one, thread_pool, is_nil, needs_thread, grow, update_thread, taking,
  ending, leaving, all_exited, take_from, step, run, added,
}
use lsp_framework.ThreadPool.Tasks.{with_threads-some, then_some, else_some, run-started}
use lsp_framework.ThreadPool.Threads.{
  or_false, all_and_some, IsAlive, IsSound, update_thread-length, taking-IsAlive, ending-IsAlive,
  all_exited-append, update_thread-IsAlive, room, some_thread,
}

length-idle_threads : (A : Type 0) (n : ℕ) → length (idle_threads {A = A} n) ≡ n
length-idle_threads A zero = refl
length-idle_threads A (suc n) = ap suc (length-idle_threads A n)

at_least_one-positive : (n : ℕ) → 0 < at_least_one n
at_least_one-positive zero = omega arith
at_least_one-positive (suc n) = omega arith

nil_unless : {B : Type 0} (xs : List B) → is_nil xs ≢ false → xs ≡ []
nil_unless [] h = refl
nil_unless (x ∷ xs) h = absurd (h refl)

idle_threads-IsAlive : (A : Type 0) (n : ℕ) → All IsAlive (idle_threads {A = A} n)
idle_threads-IsAlive A zero = tt
idle_threads-IsAlive A (suc n) = (tt, idle_threads-IsAlive A n)

module _ {A : Type 0} where
  module _ (m : ℕ) (lt : 0 < m) where
    grow-IsSound :
        (p : ThreadPool A) (q : List A)
        → IsSound m p
        → All IsAlive p.threads
        → IsSound m (grow (record p { task_queue = q }))
    grow-IsSound p q s alive = elim (Bool-cases (needs_thread (record p { task_queue = q }))) [
      | inl e ↦ rw e (record {
        limit = s.limit;
        bound =
            let free = room p.threads (ltb 1 (length q)) m (rw s.limit at e) lt in
            omega (arith, length-append p.threads (idle ∷ []));
        awaited = λ h. All-append IsAlive p.threads (idle ∷ []) alive (tt, tt);
        served = λ h. all_exited-append p.threads;
      })
      | inr e ↦ rw e (record {
        limit = s.limit;
        bound = s.bound;
        awaited = s.awaited;
        served = λ h. some_thread p.threads _ e alive;
      })
    ]

    take_from-IsSound :
        (i : ℕ) (q : List A) (p p' : ThreadPool A)
        → IsSound m p
        → take_from i q p ≡ some p'
        → IsSound m p'
    unfolding take_from
    take_from-IsSound i [] p p' s h = absurd (none_ne_some h)
    take_from-IsSound i (t ∷ ts) p p' s h =
        let (ws, hw, e) = with_threads-some _ (update_thread i (taking t) p.threads) p' h in
        let (one, all) = update_thread-IsAlive (taking t) (taking-IsAlive t) i p.threads ws hw in
        subst (IsSound m) e (record {
          limit = s.limit;
          bound =
              subst (λ n. n ≤ m) (sym (update_thread-length i (taking t) p.threads ws hw)) s.bound;
          awaited = λ h. all (s.awaited h);
          served = λ h. one;
        })

    step-IsSound :
        (a : Action A) (p p' : ThreadPool A) → IsSound m p → step a p ≡ some p' → IsSound m p'
    unfolding step
    step-IsSound (add_task t) p p' s h =
        let (w, e) = then_some p.wait_for_new_tasks _ p' h in
        subst (IsSound m) (some_injective e)
          (grow-IsSound p (p.task_queue ++ t ∷ []) s (s.awaited w))
    step-IsSound (take_task i) p p' s h = take_from-IsSound i p.task_queue p p' s h
    step-IsSound (finish_task i) p p' s h =
        let (ws, hw, e) = with_threads-some _ (update_thread i ending p.threads) p' h in
        let (one, all) = update_thread-IsAlive ending ending-IsAlive i p.threads ws hw in
        subst (IsSound m) e (record {
          limit = s.limit;
          bound = subst (λ n. n ≤ m) (sym (update_thread-length i ending p.threads ws hw)) s.bound;
          awaited = λ h. all (s.awaited h);
          served = λ h. one;
        })
    step-IsSound (leave i) p p' s h =
        let (b, o) = else_some (p.wait_for_new_tasks || not (is_nil p.task_queue)) _ p' h in
        let (closed, empty) = or_false p.wait_for_new_tasks (not (is_nil p.task_queue)) b in
        let (ws, hw, e) = with_threads-some _ (update_thread i leaving p.threads) p' o in
        subst (IsSound m) e (record {
          limit = s.limit;
          bound = subst (λ n. n ≤ m) (sym (update_thread-length i leaving p.threads ws hw)) s.bound;
          awaited = λ h. cc (closed, h);
          served = λ h. cc (ap not h, empty);
        })
    step-IsSound stop_waiting p p' s h =
        subst (IsSound m) (some_injective h)
          (record { limit = s.limit; bound = s.bound; awaited = λ h. cc; served = s.served })
    step-IsSound join p p' s h =
        let (b, o) = then_some (not p.wait_for_new_tasks && all_exited p.threads) _ p' h in
        subst (IsSound m) (some_injective o) (record {
          limit = s.limit;
          bound = omega arith;
          awaited = λ h. tt;
          served =
              λ h. absurd (all_and_some p.wait_for_new_tasks (all_exited p.threads) b (s.served h));
        })

    run-IsSound :
        (acts : List (Action A)) (p p' : ThreadPool A)
        → IsSound m p
        → run acts p ≡ some p'
        → IsSound m p'
    unfolding run
    run-IsSound [] p p' s h = subst (IsSound m) (some_injective h) s
    run-IsSound (a ∷ acts) p p' s h = elim (Option-cases (step a p)) [
      | inl e ↦ absurd (none_ne_some (rw (run, e) at h))
      | inr (q, e) ↦ run-IsSound acts q p' (step-IsSound a p q s e) (rw (run, e) at h)
    ]

  thread_pool-IsSound :
      (n m : ℕ) → n ≤ at_least_one m → IsSound (at_least_one m) (thread_pool {A = A} n m)
  thread_pool-IsSound n m le = record {
    limit = refl;
    bound = subst (λ k. k ≤ at_least_one m) (sym (length-idle_threads A n)) le;
    awaited = λ h. idle_threads-IsAlive A n;
    served = λ h. cc;
  }

  -- In every interleaving the pool has at most `max_threads` threads, or one if that is 0, when it begins with
  -- no more.
  pub run-max_threads :
      (initial_threads max_threads : ℕ) (acts : List (Action A)) (p : ThreadPool A)
      → initial_threads ≤ at_least_one max_threads
      → run acts (thread_pool initial_threads max_threads) ≡ some p
      → length p.threads ≤ at_least_one max_threads
  run-max_threads n m acts p le h =
      (run-IsSound (at_least_one m) (at_least_one-positive m) acts (thread_pool n m) p
        (thread_pool-IsSound n m le) h).bound

  -- When a pool that begins with no more threads than that gets to the end of `waitUntilFinished`, every task that was added before has been started, in the
  -- order, and none waits.
  pub join-started :
      (initial_threads max_threads : ℕ) (acts : List (Action A)) (p p' : ThreadPool A)
      → initial_threads ≤ at_least_one max_threads
      → run acts (thread_pool initial_threads max_threads) ≡ some p
      → step join p ≡ some p'
      → (p'.started ≡ added acts) × (p'.task_queue ≡ [])
  unfolding step
  join-started n m acts p p' le h hj =
      let s =
        run-IsSound (at_least_one m) (at_least_one-positive m) acts (thread_pool n m) p
          (thread_pool-IsSound n m le) h in
      let (b, o) = then_some (not p.wait_for_new_tasks && all_exited p.threads) _ p' hj in
      let none_waits =
        nil_unless p.task_queue
          (λ e. all_and_some p.wait_for_new_tasks (all_exited p.threads) b (s.served e)) in
      let same = some_injective o in
      (
        sym (ap (λ (p : ThreadPool A). p.started) same)
            ∙ sym (append-nil p.started)
            ∙ ap (λ q. p.started ++ q) (sym none_waits)
            ∙ run-started n m acts p h,
        sym (ap (λ (p : ThreadPool A). p.task_queue) same) ∙ none_waits,
      )
