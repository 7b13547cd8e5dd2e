-- ===== src/Process/Restored.antt =====
-- Which descriptors and children lsp/process.cpp leaves behind.
use lsp_framework.Base.{
  ℕ, ◌≡◌, ◌≢◌, Bool, Option, none, some, List, [], ◌∷◌, ◌++◌, All, Result, ok, err, if◌then◌else◌,
}
use lsp_framework.Exceptions.{Exception}
use lsp_framework.Process.{System, Impl, Poll, still_running, gone, failed, Ending, end_process}

-- The system after a start whose process, if there is one, has ended.
abbrev pub settle : Ending → Poll → Bool → Result Exception Impl × System → System
settle how poll interrupted (ok p, sys) = (end_process how poll interrupted p sys).1
settle how poll interrupted (err e, sys) = sys

-- The descriptors are different from each other.
abbrev pub AreDifferent : List ℕ → Type 0
AreDifferent [] = Unit
AreDifferent (d ∷ l) = All (λ e. e ≢ d) l × AreDifferent l

abbrev pub ends : Option (ℕ × ℕ) → List ℕ
ends none = []
ends (some (r, w)) = r ∷ w ∷ []

-- The error pipe, when fork fails.
abbrev pub leaked : Option (ℕ × ℕ) → Option (ℕ × ℕ) → Option (ℕ × ℕ) → Option ℕ → List ℕ
leaked (some i) (some o) (some e) none = ends (some e)
leaked _ _ _ _ = []

-- The child stays, as a zombie, when the wait for it is interrupted, or the call that does not wait fails.
abbrev pub unreaped : Option ℕ → Poll → Bool → ℕ → List ℕ
unreaped (some x) poll interrupted pid = if interrupted then pid ∷ [] else []
unreaped none still_running interrupted pid = if interrupted then pid ∷ [] else []
unreaped none gone interrupted pid = []
unreaped none failed interrupted pid = pid ∷ []

abbrev pub zombies :
    Option (ℕ × ℕ) → Option (ℕ × ℕ) → Option (ℕ × ℕ) → Option ℕ → Option ℕ → Poll → Bool → List ℕ
zombies (some i) (some o) (some e) (some pid) exec_error poll interrupted =
    unreaped exec_error poll interrupted pid
zombies _ _ _ _ _ _ _ = []

-- The same but for the signals, some more descriptors and some more children.
abbrev pub Keeps : System → List ℕ → List ℕ → System → Type 0
Keeps sys more left sys' =
    (sys'.descriptors ≡ more ++ sys.descriptors) × (sys'.children ≡ left ++ sys.children)
