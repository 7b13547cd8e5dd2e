-- ===== src/Process/Tests.antt =====
-- lsp/process.cpp in a concrete run: the destructor kills a child that still runs, and its wait is interrupted.
use lsp_framework.Base.{[], ◌∷◌}
use lsp_framework.Process.{System}

abbrev system : System
system = record { descriptors = 0 ∷ 1 ∷ 2 ∷ []; children = 40 ∷ []; signals = [] }
