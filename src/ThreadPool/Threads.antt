-- ===== src/ThreadPool/Threads.antt =====
-- The threads of the pool of lsp/threadpool.cpp in every interleaving.
use mathlib.Core.Path.{subst}
use lsp_framework.Base.{
  Option-cases, ℕ, zero, suc, ◌<◌, ◌≤◌, ◌≡◌, ◌≢◌, refl, sym, ap, ◌∙◌, Bool, true, false, not, ◌&&◌,
  ◌||◌, Option, some, List, [], ◌∷◌, ◌++◌, ltb, length, All, inl, inr, some_injective, none_ne_some,
  arith,
}
use lsp_framework.ThreadPool.{
  Worker, idle, running, exited, ThreadPool, is_nil, update_thread, taking, ending, all_exited,
}

pub or_false : (a b : Bool) → a || b ≡ false → (a ≡ false) × (b ≡ false)
or_false false b h = (refl, h)
or_false true b h = cc

pub all_and_some : (w b : Bool) → not w && b ≡ true → b ≢ false
all_and_some true b h e = cc
all_and_some false b h e = cc

module _ {A : Type 0} where
  abbrev pub IsAlive : Worker A → Type 0
  IsAlive exited = ⊥
  IsAlive _ = Unit

  -- At most `m` threads; while tasks are awaited, no thread has left its loop; and while a task waits in the
  -- queue, not every thread has.
  pub record IsSound (m : ℕ) (p : ThreadPool A) : Type 0 where
    pub limit : p.max_threads ≡ m
    pub bound : length p.threads ≤ m
    pub awaited : p.wait_for_new_tasks ≡ true → All IsAlive p.threads
    pub served : is_nil p.task_queue ≡ false → all_exited p.threads ≡ false

  -- The change of a thread keeps the number of threads, and those that are alive if it gives a living one.
  pub update_thread-length :
      (i : ℕ) (g : Worker A → Option (Worker A)) (ws ws' : List (Worker A))
      → update_thread i g ws ≡ some ws'
      → length ws' ≡ length ws
  unfolding update_thread
  update_thread-length i g [] ws' h = absurd (none_ne_some h)
  update_thread-length zero g (w ∷ ws) ws' h = elim (Option-cases (g w)) [
    | inl e ↦ absurd (none_ne_some (rw (update_thread, e) at h))
    | inr (w', e) ↦ sym (ap length (some_injective (rw (update_thread, e) at h)))
  ]
  update_thread-length (suc i) g (w ∷ ws) ws' h = elim (Option-cases (update_thread i g ws)) [
    | inl e ↦ absurd (none_ne_some (rw (update_thread, e) at h))
    | inr (vs, e) ↦
        sym (ap length (some_injective (rw (update_thread, e) at h)))
        ∙ ap suc (update_thread-length i g ws vs e)
  ]

  pub taking-IsAlive : (t : A) (w w' : Worker A) → taking t w ≡ some w' → IsAlive w'
  taking-IsAlive t idle w' h = subst IsAlive (some_injective h) tt
  taking-IsAlive t (running u) w' h = absurd (none_ne_some h)
  taking-IsAlive t exited w' h = absurd (none_ne_some h)

  pub ending-IsAlive : (w w' : Worker A) → ending w ≡ some w' → IsAlive w'
  ending-IsAlive (running t) w' h = subst IsAlive (some_injective h) tt
  ending-IsAlive idle w' h = absurd (none_ne_some h)
  ending-IsAlive exited w' h = absurd (none_ne_some h)

  pub all_exited-alive :
      (w : Worker A) (ws : List (Worker A)) → IsAlive w → all_exited (w ∷ ws) ≡ false
  all_exited-alive idle ws h = refl
  all_exited-alive (running t) ws h = refl
  all_exited-alive exited ws h = absurd h

  pub all_exited-append : (ws : List (Worker A)) → all_exited (ws ++ idle ∷ []) ≡ false
  all_exited-append [] = refl
  all_exited-append (exited ∷ ws) = all_exited-append ws
  all_exited-append (idle ∷ ws) = refl
  all_exited-append (running t ∷ ws) = refl

  pub all_exited-cons :
      (w : Worker A) (ws : List (Worker A)) → all_exited ws ≡ false → all_exited (w ∷ ws) ≡ false
  all_exited-cons idle ws h = refl
  all_exited-cons (running t) ws h = refl
  all_exited-cons exited ws h = h

  module _ (g : Worker A → Option (Worker A))
      (alive : (w w' : Worker A) → g w ≡ some w' → IsAlive w') where
    pub update_thread-IsAlive :
        (i : ℕ) (ws ws' : List (Worker A))
        → update_thread i g ws ≡ some ws'
        → (all_exited ws' ≡ false) × (All IsAlive ws → All IsAlive ws')
    unfolding update_thread
    update_thread-IsAlive i [] ws' h = absurd (none_ne_some h)
    update_thread-IsAlive zero (w ∷ ws) ws' h = elim (Option-cases (g w)) [
      | inl e ↦ absurd (none_ne_some (rw (update_thread, e) at h))
      | inr (w', e) ↦
          subst (λ vs. (all_exited vs ≡ false) × (All IsAlive (w ∷ ws) → All IsAlive vs))
            (some_injective (rw (update_thread, e) at h))
            (all_exited-alive w' ws (alive w w' e), λ (hw, hs). (alive w w' e, hs))
    ]
    update_thread-IsAlive (suc i) (w ∷ ws) ws' h = elim (Option-cases (update_thread i g ws)) [
      | inl e ↦ absurd (none_ne_some (rw (update_thread, e) at h))
      | inr (vs, e) ↦
          let (some_alive, keep) = update_thread-IsAlive i ws vs e in
          subst (λ vs. (all_exited vs ≡ false) × (All IsAlive (w ∷ ws) → All IsAlive vs))
            (some_injective (rw (update_thread, e) at h))
            (all_exited-cons w vs some_alive, λ (hw, hs). (hw, keep hs))
    ]

  pub room :
      (ws : List (Worker A)) (b : Bool) (m : ℕ)
      → (b && ltb (length ws) m) || is_nil ws ≡ true
      → 0 < m
      → length ws < m
  room [] b m h lt = lt
  room (w ∷ ws) true m h lt = ground arith
  room (w ∷ ws) false m h lt = cc

  pub some_thread :
      (ws : List (Worker A)) (b : Bool)
      → b || is_nil ws ≡ false
      → All IsAlive ws
      → all_exited ws ≡ false
  some_thread [] b h hs = let (left, right) = or_false b true h in cc
  some_thread (w ∷ ws) b h (hw, hs) = all_exited-alive w ws hw
