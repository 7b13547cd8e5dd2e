-- ===== src/ThreadPool/Tasks.antt =====
-- The tasks of the pool of lsp/threadpool.cpp in every interleaving.
use lsp_framework.Base.{
  Option-cases, ℕ, ◌≡◌, refl, sym, ap, ◌∙◌, Bool, true, false, not, ◌&&◌, ◌||◌, Option, none, some,
  List, [], ◌∷◌, ◌++◌, if◌then◌else◌, append_assoc, append-nil, Bool-cases, inl, inr,
  some_injective, none_ne_some,
}
use lsp_framework.ThreadPool.{
  Worker, ThreadPool, Action, add_task, take_task, finish_task, leave, stop_waiting, join,
  thread_pool, is_nil, needs_thread, grow, update_thread, taking, ending, leaving, all_exited,
  with_threads, take_from, step, run, added,
}

module _ {A : Type 0} where
  pub with_threads-some :
      (g : List (Worker A) → ThreadPool A) (o : Option (List (Worker A))) (p : ThreadPool A)
      → with_threads g o ≡ some p
      → (ws : List (Worker A)) × (o ≡ some ws) × (g ws ≡ p)
  with_threads-some g none p h = absurd (none_ne_some h)
  with_threads-some g (some ws) p h = (ws, refl, some_injective h)

  pub then_some :
      (b : Bool) (o : Option (ThreadPool A)) (p : ThreadPool A)
      → (if b then o else none) ≡ some p
      → (b ≡ true) × (o ≡ some p)
  then_some true o p h = (refl, h)
  then_some false o p h = absurd (none_ne_some h)

  pub else_some :
      (b : Bool) (o : Option (ThreadPool A)) (p : ThreadPool A)
      → (if b then none else o) ≡ some p
      → (b ≡ false) × (o ≡ some p)
  else_some false o p h = (refl, h)
  else_some true o p h = absurd (none_ne_some h)

  -- The tasks that were given to the pool: those that were taken, and those that wait.
  abbrev pub tasks : ThreadPool A → List A
  tasks p = p.started ++ p.task_queue

  take_from-tasks :
      (i : ℕ) (q : List A) (p p' : ThreadPool A)
      → take_from i q p ≡ some p'
      → tasks p' ≡ p.started ++ q
  unfolding take_from
  take_from-tasks i [] p p' h = absurd (none_ne_some h)
  take_from-tasks i (t ∷ ts) p p' h =
      let (ws, hw, e) = with_threads-some _ (update_thread i (taking t) p.threads) p' h in
      sym (ap tasks e) ∙ append_assoc p.started (t ∷ []) ts

  grow-tasks : (p : ThreadPool A) → tasks (grow p) ≡ tasks p
  grow-tasks p = elim (Bool-cases (needs_thread p)) [ inl e ↦ rw e refl | inr e ↦ rw e refl ]

  step-tasks :
      (a : Action A) (p p' : ThreadPool A)
      → step a p ≡ some p'
      → tasks p' ≡ tasks p ++ added (a ∷ [])
  unfolding step
  step-tasks (add_task t) p p' h =
      let (w, e) = then_some p.wait_for_new_tasks _ p' h in
      sym (ap tasks (some_injective e))
      ∙ grow-tasks (record p { task_queue = p.task_queue ++ t ∷ [] })
      ∙ sym (append_assoc p.started p.task_queue (t ∷ []))
  step-tasks (take_task i) p p' h =
      take_from-tasks i p.task_queue p p' h ∙ sym (append-nil (tasks p))
  step-tasks (finish_task i) p p' h =
      let (ws, hw, e) = with_threads-some _ (update_thread i ending p.threads) p' h in
      sym (ap tasks e) ∙ sym (append-nil (tasks p))
  step-tasks (leave i) p p' h =
      let (b, o) = else_some (p.wait_for_new_tasks || not (is_nil p.task_queue)) _ p' h in
      let (ws, hw, e) = with_threads-some _ (update_thread i leaving p.threads) p' o in
      sym (ap tasks e) ∙ sym (append-nil (tasks p))
  step-tasks stop_waiting p p' h = sym (ap tasks (some_injective h)) ∙ sym (append-nil (tasks p))
  step-tasks join p p' h =
      let (b, o) = then_some (not p.wait_for_new_tasks && all_exited p.threads) _ p' h in
      sym (ap tasks (some_injective o)) ∙ sym (append-nil (tasks p))

  added-cons :
      (a : Action A) (acts : List (Action A)) → added (a ∷ acts) ≡ added (a ∷ []) ++ added acts
  added-cons (add_task t) acts = refl
  added-cons (take_task i) acts = refl
  added-cons (finish_task i) acts = refl
  added-cons (leave i) acts = refl
  added-cons stop_waiting acts = refl
  added-cons join acts = refl

  run-tasks :
      (acts : List (Action A)) (p p' : ThreadPool A)
      → run acts p ≡ some p'
      → tasks p' ≡ tasks p ++ added acts
  unfolding run
  run-tasks [] p p' h = sym (ap tasks (some_injective h)) ∙ sym (append-nil (tasks p))
  run-tasks (a ∷ acts) p p' h = elim (Option-cases (step a p)) [
    | inl e ↦ absurd (none_ne_some (rw (run, e) at h))
    | inr (q, e) ↦
        run-tasks acts q p' (rw (run, e) at h)
        ∙ ap (λ ts. ts ++ added acts) (step-tasks a p q e)
        ∙ append_assoc (tasks p) (added (a ∷ [])) (added acts)
        ∙ ap (λ ts. tasks p ++ ts) (sym (added-cons a acts))
  ]

  -- In every interleaving the tasks are started in the order in which they were added, each once: those that
  -- were started, followed by those that wait, are the added ones.
  pub run-started :
      (initial_threads max_threads : ℕ) (acts : List (Action A)) (p : ThreadPool A)
      → run acts (thread_pool initial_threads max_threads) ≡ some p
      → p.started ++ p.task_queue ≡ added acts
  run-started n m acts p h = run-tasks acts (thread_pool n m) p h
