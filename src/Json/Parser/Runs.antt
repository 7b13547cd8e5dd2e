-- ===== src/Json/Parser/Runs.antt =====
-- Runs of the loop of `Parser::parse`, one round after the other.
use mathlib.Core.Path.{subst}
use lsp_framework.Base.{ℕ, zero, suc, ◌<◌, ◌≡◌, refl, false, List, [], ◌∷◌, ◌++◌, Bytes, ok, arith}
use lsp_framework.Base.Chars.{is_space}
use lsp_framework.Json.Value.{Value, Decimals}
use lsp_framework.Json.Parser.Reads.{Ends}
use lsp_framework.Json.Parser.Termination.{measure, Lowers, step-Ends, run_done, run_more}
use lsp_framework.Json.Parser.Lexing.{IsBlank, skip_whitespace-blank}
use lsp_framework.Json.Parser.{Parser, Frame, dispatch, at_token, step, run}

abbrev pub parser : {D : Type 0} → List Frame → Value D → Bytes → ℕ → Parser D
parser stack root rest at = record { stack = stack; root = root; rest = rest; at = at }

module _ {D : Type 0} (dec : Decimals D) where
  pub data Reaches : Parser D → Parser D → Type 0 where
    here : {q : Parser D} → Reaches q q
    next :
        {q m q' : Parser D} (f : Frame) (below : List Frame)
        → q.stack ≡ f ∷ below
        → step dec f below q ≡ ok m
        → Reaches m q'
        → Reaches q q'

  pub run-Reaches :
      (fuel : ℕ) (q q' : Parser D)
      → Reaches q q'
      → q'.stack ≡ []
      → measure dec q < fuel
      → run dec fuel q ≡ ok q'
  run-Reaches zero q q' r e h = absurd (omega arith)
  run-Reaches (suc fuel) q _ here e h = run_done dec fuel q e
  run-Reaches (suc fuel) q q' (next {m = m} f below top s r) e h =
      let ends : Ends (Lowers dec (measure dec q)) (step dec f below q) =
        step-Ends dec f below q top in
      let lower : Lowers dec (measure dec q) m = subst (Ends (Lowers dec (measure dec q))) s ends in
      rw (run_more dec fuel q f below top, s) (run-Reaches fuel m q' r e (omega arith))

  -- From a state of the parser the loop comes to this stack, root and unread text.
  abbrev pub Leads : Parser D → List Frame → Value D → Bytes → Type 0
  Leads q stack root rest = (at : ℕ) × Reaches q (parser stack root rest at)

  -- A round whose token stands behind blanks.
  pub enter :
      (f : Frame) (below : List Frame) (root : Value D) (w : Bytes) (c : ℕ) (s : Bytes) (at : ℕ)
      (stack : List Frame) (root' : Value D) (rest : Bytes)
      → IsBlank w
      → is_space c ≡ false
      → ((at' : ℕ)
          → (m : Parser D) × (dispatch dec f.context f.value below root c s at' ≡ ok m)
            × Leads m stack root' rest)
      → Leads (parser (f ∷ below) root (w ++ c ∷ s) at) stack root' rest
  unfolding step at_token
  enter f below root w c s at stack root' rest hw hc go =
      let (at', e) = skip_whitespace-blank w c s at hw hc in
      let (m, d, (at'', r)) = go at' in (at'', next f below refl (rw e d) r)

  Reaches-trans : {q m q' : Parser D} → Reaches q m → Reaches m q' → Reaches q q'
  Reaches-trans here r = r
  Reaches-trans (next f below top s r) t = next f below top s (Reaches-trans r t)

  pub Leads-then :
      (q : Parser D) (stack stack' : List Frame) (root root' : Value D) (rest rest' : Bytes)
      → Leads q stack root rest
      → ((at : ℕ) → Leads (parser stack root rest at) stack' root' rest')
      → Leads q stack' root' rest'
  Leads-then q stack stack' root root' rest rest' (at, r) k =
      let (at', r') = k at in (at', Reaches-trans r r')
