-- ===== src/Process.antt =====
-- lsp/process.cpp on POSIX: the descriptors and the child process that a `Process` holds. The answers of the operating
-- system are arguments.
pub mod Restored
mod Tests
use lsp_framework.Base.{
  ℕ, Bool, true, false, Option, none, some, List, [], ◌∷◌, Bytes, ◌==◌, if◌then◌else◌, Result, ok,
  err, not, codes,
}
use lsp_framework.Exceptions.{Exception, Throws, std_exception}

-- What the operating system keeps for this process: the open descriptors, the children that are not waited for,
-- and the signals that were sent, the last first.
pub record System : Type 0 where
  pub descriptors : List ℕ
  pub children : List ℕ
  pub signals : List (ℕ × ℕ)

-- The members of `Process::Impl`; none is -1.
pub record Impl : Type 0 where
  pub stdin_write : Option ℕ
  pub stdout_read : Option ℕ
  pub pid : Option ℕ

unfoldable pub erase : ℕ → List ℕ → List ℕ
erase d [] = []
erase d (e ∷ l) = let rest = erase d l in if e == d then l else e ∷ rest

abbrev pub close : ℕ → System → System
close d sys = record sys { descriptors = erase d sys.descriptors }

-- `pipe`: the end that is read and the end that is written.
abbrev pub open_pipe : ℕ × ℕ → System → System
open_pipe (r, w) sys = record sys { descriptors = r ∷ w ∷ sys.descriptors }

abbrev pub close_pipe : ℕ × ℕ → System → System
close_pipe (r, w) sys = close w (close r sys)

-- The call of `waitpid` that waits. It may be interrupted by a signal, which the code does not look at; then the child
-- is not waited for.
abbrev pub wait_for : Bool → ℕ → System → System
wait_for interrupted pid sys =
    if interrupted then sys else record sys { children = erase pid sys.children }

-- What the call of `waitpid` that does not wait gives: 0, the child, which is then gone, or an error.
pub data Poll : Type 0 where
  still_running gone failed : Poll

abbrev pub kill : ℕ → ℕ → System → System
kill pid signal sys = record sys { signals = (pid, signal) ∷ sys.signals }

-- `errno` and its text are left out.
abbrev pub process_error : Exception
process_error = std_exception []

-- The parent behind `fork`: the write end of the error pipe is closed by the child when exec succeeds; if exec
-- fails, the child writes the error to it.
unfoldable pub parent : ℕ × ℕ → ℕ × ℕ → ℕ × ℕ → ℕ → Option ℕ → Bool → System → Throws Impl × System
parent (in_read, in_write) (out_read, out_write) (err_read, err_write) pid exec_error interrupted
      sys =
    let sys' = close err_read (close err_write (close out_write (close in_read sys))) in
    elim exec_error [
      | some e ↦
          (err process_error, wait_for interrupted pid (close out_read (close in_write sys')))
      | none ↦ (
        ok (record { stdin_write = some in_write; stdout_read = some out_read; pid = some pid }),
        sys',
      )
    ]

-- The constructor, on the outcomes of the three calls of `pipe`, of `fork`, on the error of exec that the
-- child reports, and on whether the wait for that child is interrupted.
unfoldable pub start :
    Option (ℕ × ℕ)
    → Option (ℕ × ℕ)
    → Option (ℕ × ℕ)
    → Option ℕ
    → Option ℕ
    → Bool
    → System
    → Throws Impl × System
start none out_pipe err_pipe forked exec_error interrupted sys = (err process_error, sys)
start (some i) none err_pipe forked exec_error interrupted sys =
    (err process_error, close_pipe i (open_pipe i sys))
start (some i) (some o) none forked exec_error interrupted sys =
    (err process_error, close_pipe o (close_pipe i (open_pipe o (open_pipe i sys))))
start (some i) (some o) (some e) none exec_error interrupted sys =
    (err process_error, close_pipe o (close_pipe i (open_pipe e (open_pipe o (open_pipe i sys)))))
start (some i) (some o) (some e) (some pid) exec_error interrupted sys =
    let opened = open_pipe e (open_pipe o (open_pipe i sys)) in
    parent i o e pid exec_error interrupted (record opened { children = pid ∷ opened.children })

abbrev pub close_some : Option ℕ → System → System
close_some none sys = sys
close_some (some d) sys = close d sys

unfoldable pub close_std_handles : Impl → System → Impl × System
close_std_handles p sys = (
  record p { stdin_write = none; stdout_read = none },
  close_some p.stdout_read (close_some p.stdin_write sys),
)

unfoldable pub check_running : Poll → Impl → System → Impl × System
check_running poll p sys = elim p.pid [
  | none ↦ (p, sys)
  | some pid ↦ elim poll [
    | still_running ↦ (p, sys)
    | gone ↦ close_std_handles (record p { pid = none }) (wait_for false pid sys)
    | failed ↦ close_std_handles (record p { pid = none }) sys
  ]
]

-- The destructor, `wait` and `terminate`.
pub data Ending : Type 0 where
  destroyed waited terminated : Ending

abbrev pub signal : Ending → ℕ → System → System
signal destroyed pid sys = kill pid 9 sys
signal waited pid sys = sys
signal terminated pid sys = kill pid 15 sys

unfoldable pub finish_running : Ending → Bool → Impl × System → Impl × System
finish_running how interrupted (p, sys) = elim p.pid [
  | none ↦ (p, sys)
  | some pid ↦
      let (p', sys') = close_std_handles p sys in
      (record p' { pid = none }, wait_for interrupted pid (signal how pid sys'))
]

unfoldable pub end_process : Ending → Poll → Bool → Impl → System → Impl × System
end_process how poll interrupted p sys = finish_running how interrupted (check_running poll p sys)

-- `Process`: what its pointer to an `Impl` holds.
abbrev pub is_some : Option ℕ → Bool
is_some none = false
is_some (some d) = true

unfoldable pub is_running : Poll → Option Impl → System → Bool × Option Impl × System
is_running poll none sys = (false, none, sys)
is_running poll (some p) sys =
    let (p', sys') = check_running poll p sys in (is_some p'.pid, some p', sys')

-- `stdIO`: the implementation is the stream.
unfoldable pub std_io : Poll → Option Impl → System → Throws (Option Impl) × Option Impl × System
std_io poll p sys =
    let (running, p', sys') = is_running poll p sys in
    (
      if not running
          then err (std_exception (codes "Process is not running - Cannot get stdio"))
          else ok p',
      p',
      sys',
    )

-- `id`; none is -1.
unfoldable pub process_id : Poll → Option Impl → System → Option ℕ × Option Impl × System
process_id poll p sys =
    let (running, p', sys') = is_running poll p sys in
    (if not running then none else elim p' [ none ↦ none | some q ↦ q.pid ], p', sys')

-- The destructor of the implementation runs when the pointer is reset.
unfoldable pub reset : Poll → Bool → Option Impl → System → Option Impl × System
reset poll interrupted none sys = (none, sys)
reset poll interrupted (some p) sys = (none, (end_process destroyed poll interrupted p sys).1)

-- `wait` and `terminate`, which is the destructor's `wait` too.
unfoldable pub end_and_reset : Ending → Poll → Bool → Option Impl → System → Option Impl × System
end_and_reset how poll interrupted none sys = (none, sys)
end_and_reset how poll interrupted (some p) sys =
    let (p', sys') = end_process how poll interrupted p sys in reset poll interrupted (some p') sys'
