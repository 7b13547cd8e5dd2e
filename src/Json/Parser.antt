-- ===== src/Json/Parser.antt =====
-- `Parser` of lsp/json/json.cpp: a stack of states with pointers into the value under construction.
-- A pointer is the path from the root of that value. `m_pos` is the pair of the unread text and the
-- offset, which the code also moves one past the end of the text. Of `std::isspace` and the like
-- the "C" locale is taken.
pub mod Pointers
pub mod Tokens
pub mod Reads
pub mod Termination
pub mod Writes
pub mod Lexing
pub mod Strings
pub mod Runs
pub mod Scalars
pub mod Rounds
use lsp_framework.Base.{
  ℕ, zero, suc, ◌+◌, ◌*◌, ◌≡◌, refl, Bool, true, false, not, ◌&&◌, List, [], ◌∷◌, ◌++◌, Bytes,
  codes, ◌==◌, if◌then◌else◌, length, drop, Result, ok, err, ◌>>=◌, ℤ,
}
use lsp_framework.Exceptions.{Exception, Throws, parse_error, out_of_fuel}
use lsp_framework.Json.Value.{
  Value, Items, Fields, Decimals, Stod, null, integer, array, object, nil, cons, end, field,
  as_object, as_array, is_empty, contains, index, length_items, append_item, item_at, update_item,
  update_field, find,
}
use lsp_framework.Json.Literal.{from_string_literal}
use lsp_framework.Json.Parser.Pointers.{at_index, at_key, Pointer, deref, modify_at}
use lsp_framework.Json.Parser.Tokens.{
  Read, skip_whitespace, parse_string, scan_string, take_while, parse_number, number_value,
  parse_identifier, identifier_value, parse_simple_value, head_is,
}

pub data State : Type 0 where
  value_state object_state object_key_state array_state : State

pub record Frame : Type 0 where
  pub context : State
  pub value : Pointer

abbrev pub frame : State → Pointer → Frame
frame s p = record { context = s; value = p }

pub record Parser (D : Type 0) : Type 0 where
  pub stack : List Frame
  pub root : Value D
  pub rest : Bytes
  pub at : ℕ

abbrev is_nil : Bytes → Bool
is_nil [] = true
is_nil (c ∷ s) = false

-- `pushState(State::Value, result)` on a fresh parser.
abbrev pub start : {D : Type 0} → Bytes → Parser D
start text = record { stack = frame value_state [] ∷ []; root = null; rest = text; at = 0 }

-- Each two rounds of the loop read a character at least.
abbrev pub fuel_for : Bytes → ℕ
fuel_for text = 2 * length text + 2

module _ {D : Type 0} (dec : Decimals D) where
  -- The handlers stand at the character `c` with `s` behind it and `below` under the top frame,
  -- whose pointer is `p`.
  module _ (p : Pointer) (below : List Frame) (root : Value D) (c : ℕ) (s : Bytes) (at : ℕ) where
    handle_value : Throws (Parser D)
    handle_value =
        if c == b'{'
        then ok (record {
          stack = frame object_state p ∷ frame value_state p ∷ below;
          root = modify_at p (λ _. object end) root;
          rest = s;
          at = at + 1;
        })
        else if c == b'['
        then ok (record {
          stack = frame array_state p ∷ frame value_state p ∷ below;
          root = modify_at p (λ _. array nil) root;
          rest = s;
          at = at + 1;
        })
        else do
          r ← parse_simple_value dec c s at
          ok (record {
            stack = below;
            root = modify_at p (λ _. r.token) root;
            rest = r.rest;
            at = r.at;
          })

    -- The two states popped at a closing bracket are those of the container and of its value.
    close : Throws (Parser D)
    close = ok (record { stack = drop 1 below; root = root; rest = s; at = at + 1 })

    -- Behind a comma no closing bracket may follow.
    after_comma : ℕ → (Bytes → ℕ → Parser D) → Throws (Parser D)
    after_comma closing next =
        let (s', at') = skip_whitespace s (at + 1) in
        if not (c == b',')
        then err (parse_error (codes "Expected ','") at)
        else if head_is closing s'
        then err (parse_error (codes "Trailing ','") at)
        else ok (next s' at')

    push_key : Bytes → ℕ → Parser D
    push_key s' at' = record {
      stack = frame object_key_state p ∷ frame object_state p ∷ below;
      root = root;
      rest = s';
      at = at';
    }

    handle_object : Throws (Parser D)
    handle_object = if c == b'}' then close else do
      fs ← as_object (deref p root)
      if is_empty fs then ok (push_key (c ∷ s) at) else after_comma b'}' push_key

    -- `++m_pos` also moves past the end of the text.
    push_member : Fields D → Bytes → Bytes → ℕ → Throws (Parser D)
    push_member fs key s' at' =
        if not (head_is b':' s') && not (is_nil s')
        then err (parse_error (codes "Expected ':'") at')
        else ok (record {
          stack = frame value_state (p ++ at_key key ∷ []) ∷ below;
          root = modify_at p (λ _. object (index key fs)) root;
          rest = drop 1 s';
          at = at' + 1;
        })

    handle_object_key : Throws (Parser D)
    handle_object_key = do
      fs ← as_object (deref p root)
      r ← parse_string (c ∷ s) at
      if contains r.token fs
          then err (parse_error (codes "Duplicate key '" ++ (r.token ++ codes "'")) at)
          else (let (s', at') = skip_whitespace r.rest r.at in push_member fs r.token s' at')

    push_element : Items D → Bytes → ℕ → Parser D
    push_element xs s' at' = record {
      stack =
          frame value_state (p ++ at_index (length_items xs) ∷ []) ∷ frame array_state p ∷ below;
      root = modify_at p (λ _. array (append_item xs null)) root;
      rest = s';
      at = at';
    }

    handle_array : Throws (Parser D)
    handle_array = if c == b']' then close else do
      xs ← as_array (deref p root)
      if length_items xs == 0
          then ok (push_element xs (c ∷ s) at)
          else after_comma b']' (push_element xs)

  -- The switch over the state.
  pub dispatch : State → Pointer → List Frame → Value D → ℕ → Bytes → ℕ → Throws (Parser D)
  unfolding handle_value handle_object handle_object_key handle_array close after_comma push_key
      push_member push_element
  dispatch value_state = handle_value
  dispatch object_state = handle_object
  dispatch object_key_state = handle_object_key
  dispatch array_state = handle_array

  at_token : Frame → List Frame → Value D → Bytes × ℕ → Throws (Parser D)
  unfolding dispatch
  at_token f below root ([], at) = err (parse_error (codes "Unexpected end of input") at)
  at_token f below root (c ∷ s, at) = dispatch f.context f.value below root c s at

  -- The body of the loop of `parse`.
  pub step : Frame → List Frame → Parser D → Throws (Parser D)
  unfolding at_token
  step f below q = at_token f below q.root (skip_whitespace q.rest q.at)

  -- The loop, with fuel.
  pub run : ℕ → Parser D → Throws (Parser D)
  unfolding step
  run zero q = err out_of_fuel
  run (suc fuel) q = elim q.stack [ [] ↦ ok q | f ∷ below ↦ step f below q >>= run fuel ]

  unfoldable pub finish : Value D → Bytes × ℕ → Throws (Value D)
  finish v ([], at) = ok v
  finish v (c ∷ s, at) = err (parse_error (codes "Trailing characters in json") at)

  unfoldable pub parse : Bytes → Throws (Value D)
  unfolding run finish
  parse text = do q ← run (fuel_for text) (start text); finish q.root (skip_whitespace q.rest q.at)
