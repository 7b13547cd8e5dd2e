-- ===== src/Json/Parser/Termination.antt =====
-- The loop of `Parser::parse` ends on every text: each round lowers a measure of the unread text.
use native.Mathlib.Nat.{add-zero}
use lsp_framework.Base.{
  ℕ, zero, suc, ◌+◌, ◌*◌, ◌<◌, ◌≤◌, ◌≡◌, ◌≢◌, refl, List, [], ◌∷◌, ◌++◌, Bytes, codes, ◌==◌,
  if◌then◌else◌, length, drop, ok, err, ◌>>=◌, arith, Bool-cases, inl, inr, ◌⊎◌, length-drop,
}
use lsp_framework.Exceptions.{Throws, parse_error, out_of_fuel}
use lsp_framework.Json.Value.{Value, Fields, Decimals, as_object, contains}
use lsp_framework.Json.Parser.Tokens.{Read, skip_whitespace, parse_string, parse_simple_value}
use lsp_framework.Json.Parser.Pointers.{Pointer, deref, modify_at}
use lsp_framework.Json.Parser.Reads.{
  Ends, Ends-bind, Ends-mono, Ends-apart, length-skip_whitespace, Leaves, parse_string-Ends,
  parse_simple_value-Ends,
}
use lsp_framework.Json.Parser.{
  Parser, Frame, State, value_state, object_state, object_key_state, array_state, handle_value,
  handle_object, handle_object_key, handle_array, close, after_comma, push_key, push_member,
  push_element, dispatch, step, run, parse, start, fuel_for, finish, at_token,
}

unfoldable pub state_weight : State → ℕ
state_weight object_state = 1
state_weight array_state = 1
state_weight _ = 0

unfoldable pub weight : List Frame → ℕ
unfolding state_weight
weight [] = 0
weight (f ∷ fs) = state_weight f.context

as_object-Ends : {D : Type 0} (v : Value D) → Ends (λ fs. Unit {0}) (as_object v)
as_object-Ends v = ground arith

stack-cases : (l : List Frame) → (l ≡ []) ⊎ ((f : Frame) × (below : List Frame) × (l ≡ f ∷ below))
stack-cases [] = inl refl
stack-cases (f ∷ below) = inr (f, below, refl)

weight_le : (fs : List Frame) → weight fs ≤ 1
unfolding weight
weight_le [] = omega arith
weight_le (f ∷ fs) = ground arith

module _ {D : Type 0} (dec : Decimals D) where
  finish-Ends : (v : Value D) (r : Bytes × ℕ) → Ends (λ v. Unit {0}) (finish dec v r)
  unfolding finish
  finish-Ends v ([], at) = tt
  finish-Ends v (c ∷ s, at) = λ e. cc

  -- Twice the unread text, and one more where the next round may read nothing.
  unfoldable pub measure : Parser D → ℕ
  unfolding weight
  measure q = 2 * length q.rest + weight q.stack

  abbrev pub Lowers : ℕ → Parser D → Type 0
  Lowers n q = measure q < n

  module _ (p : Pointer) (below : List Frame) (root : Value D) (c : ℕ) (s : Bytes) (at : ℕ) where
    handle_value-Ends : Ends (Lowers (2 * suc (length s))) (handle_value dec p below root c s at)
    unfolding handle_value measure
    handle_value-Ends = elim (Bool-cases (c == b'{')) [
      | inl e ↦ rw e (omega arith)
      | inr e ↦ elim (Bool-cases (c == b'[')) [
        | inl b ↦ rw (e, b) (omega arith)
        | inr b ↦
            rw (e, b)
              (Ends-bind (Leaves (suc (length s))) (Lowers (2 * suc (length s)))
                (parse_simple_value dec c s at)
                (λ r. ok (record {
                  stack = below;
                  root = modify_at p (λ _. r.token) root;
                  rest = r.rest;
                  at = r.at;
                }))
                (parse_simple_value-Ends dec c s at) (λ r h. omega (arith, weight_le below)))
      ]
    ]

    handle_object-Ends :
        Ends (Lowers (2 * suc (length s) + 1)) (handle_object dec p below root c s at)
    unfolding handle_object close after_comma push_key measure
    handle_object-Ends = ground (arith, weight_le (drop 1 below), length-skip_whitespace s (at + 1))

    handle_array-Ends :
        Ends (Lowers (2 * suc (length s) + 1)) (handle_array dec p below root c s at)
    unfolding handle_array close after_comma push_element measure
    handle_array-Ends = ground (arith, weight_le (drop 1 below), length-skip_whitespace s (at + 1))

    after_key : Fields D → Read Bytes → Throws (Parser D)
    after_key fs r =
        if contains r.token fs
        then err (parse_error (codes "Duplicate key '" ++ (r.token ++ codes "'")) at)
        else (let (s', at') = skip_whitespace r.rest r.at in
            push_member dec p below root c s at fs r.token s' at')

    after_key-Ends :
        (fs : Fields D) (r : Read Bytes)
        → Leaves (suc (length s)) r
        → Ends (Lowers (2 * suc (length s))) (after_key fs r)
    unfolding after_key push_member measure
    after_key-Ends fs r h =
        ground
          (arith, length-skip_whitespace r.rest r.at, length-drop 1 (skip_whitespace r.rest r.at).0)

    handle_object_key-Ends :
        Ends (Lowers (2 * suc (length s))) (handle_object_key dec p below root c s at)
    unfolding handle_object_key after_key
    handle_object_key-Ends =
        Ends-bind (λ fs. Unit {0}) (Lowers (2 * suc (length s))) (as_object (deref p root))
          (λ fs. parse_string (c ∷ s) at >>= after_key fs) (as_object-Ends (deref p root))
          (λ fs u.
            Ends-bind (Leaves (suc (length s))) (Lowers (2 * suc (length s)))
              (parse_string (c ∷ s) at) (after_key fs) (parse_string-Ends (c ∷ s) at)
              (after_key-Ends fs))

  dispatch-Ends :
      (t : State) (p : Pointer) (below : List Frame) (root : Value D) (c : ℕ) (s : Bytes) (at : ℕ)
      → Ends (Lowers (2 * suc (length s) + state_weight t)) (dispatch dec t p below root c s at)
  unfolding state_weight
  dispatch-Ends value_state p below root c s at =
      unfold dispatch in rw add-zero (handle_value-Ends p below root c s at)
  dispatch-Ends object_state p below root c s at =
      unfold dispatch in handle_object-Ends p below root c s at
  dispatch-Ends object_key_state p below root c s at =
      unfold dispatch in rw add-zero (handle_object_key-Ends p below root c s at)
  dispatch-Ends array_state p below root c s at =
      unfold dispatch in handle_array-Ends p below root c s at

  at_token-Ends :
      (f : Frame) (below : List Frame) (root : Value D) (s : Bytes) (at n : ℕ)
      → length s ≤ n
      → Ends (Lowers (2 * n + state_weight f.context)) (at_token dec f below root (s, at))
  unfolding at_token
  at_token-Ends f below root [] at n h = λ e. cc
  at_token-Ends f below root (c ∷ s) at n h =
      Ends-mono (Lowers (2 * suc (length s) + state_weight f.context))
        (Lowers (2 * n + state_weight f.context)) (dispatch dec f.context f.value below root c s at)
        (λ q k. omega arith) (dispatch-Ends f.context f.value below root c s at)

  pub step-Ends :
      (f : Frame) (below : List Frame) (q : Parser D)
      → q.stack ≡ f ∷ below
      → Ends (Lowers (measure q)) (step dec f below q)
  unfolding step
  step-Ends f below q e =
      let m : measure q ≡ 2 * length q.rest + state_weight f.context =
        unfold measure weight in rw e in
      rw m (
        at_token-Ends f below q.root (skip_whitespace q.rest q.at).0 (skip_whitespace q.rest q.at).1
          (length q.rest) (length-skip_whitespace q.rest q.at))

  pub run_done : (fuel : ℕ) (q : Parser D) → q.stack ≡ [] → run dec (suc fuel) q ≡ ok q
  unfolding run
  run_done fuel q e = ground arith

  pub run_more :
      (fuel : ℕ) (q : Parser D) (f : Frame) (below : List Frame)
      → q.stack ≡ f ∷ below
      → run dec (suc fuel) q ≡ (step dec f below q >>= run dec fuel)
  unfolding run
  run_more fuel q f below e = ground arith

  run-Ends :
      (fuel : ℕ) (q : Parser D) → measure q < fuel → Ends (λ q'. q'.stack ≡ []) (run dec fuel q)
  run-Ends zero q h = absurd (omega arith)
  run-Ends (suc fuel) q h = elim (stack-cases q.stack) [
    | inl e ↦ rw (run_done fuel q e) e
    | inr (f, below, e) ↦ rw (run_more fuel q f below e) (
        Ends-bind (Lowers (measure q)) (λ q'. q'.stack ≡ []) (step dec f below q) (run dec fuel)
          (step-Ends f below q e) (λ q' lt. run-Ends fuel q' (omega arith)))
  ]

  parse-Ends : (text : Bytes) → Ends (λ v. Unit {0}) (parse dec text)
  unfolding parse
  parse-Ends text =
      Ends-bind (λ (q : Parser D). q.stack ≡ []) (λ v. Unit {0})
        (run dec (fuel_for text) (start text))
        (λ q. finish dec q.root (skip_whitespace q.rest q.at))
        (run-Ends (fuel_for text) (start text) (unfold measure weight state_weight in omega arith))
        (λ q e. finish-Ends q.root (skip_whitespace q.rest q.at))

  -- On every text the loop ends before its fuel: the parser returns a value or throws.
  pub parse-ne-out_of_fuel : (text : Bytes) → parse dec text ≢ err out_of_fuel
  parse-ne-out_of_fuel text e = Ends-apart (parse dec text) e (parse-Ends text)
