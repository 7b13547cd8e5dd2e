-- ===== src/Json/RoundTrip.antt =====
-- `parse` of lsp/json/json.cpp undoes its `stringify`.
pub mod Layout
pub mod Elements
pub mod Members
pub mod Joins
pub mod Arrays
pub mod Objects
use lsp_framework.Base.{
  ℕ, zero, suc, ◌+◌, ◌*◌, ◌<◌, ◌≡◌, ◌≢◌, refl, sym, ap, ◌∙◌, Bool, true, false, ◌||◌, List, [], ◌∷◌,
  ◌++◌, Bytes, codes, ok, ◌>>=◌, arith, All, append_assoc, append-nil, if◌then◌else◌, min, length,
}
use lsp_framework.Base.Chars.{is_space, to_string}
use lsp_framework.Json.Value.{
  Value, Items, Fields, Decimals, null, boolean, integer, decimal, string, array, object, nil, cons,
  end, field, contains, append_field, append_item, length_items, index, is_empty, as_object,
  as_array,
}
use lsp_framework.Json.Literal.{to_string_literal, quote}
use lsp_framework.Json.Literal.RoundTrip.{body, to_string_literal-body}
use lsp_framework.Json.Print.{
  print, print_bool, print_items, print_more_items, print_fields, print_more_fields, list_edge,
  value_sep, key_sep, get_indent, tabs, stringify, print_decimal,
}
use lsp_framework.Json.Print.Trim.{print_decimal-id}
use lsp_framework.Json.Parser.Pointers.{at_index, at_key, Pointer, deref, modify_at}
use lsp_framework.Json.Parser.Writes.{
  IsTarget, IsTarget-modify_at, IsTarget-below, modify_below, update_item-append_item,
  update_field-append_field, child-item, child-field, modify_at-modify_at,
}
use lsp_framework.Json.Parser.Lexing.{IsBlank, skip_whitespace-blank}
use lsp_framework.Json.Parser.Tokens.{Read, skip_whitespace, parse_simple_value, parse_string}
use lsp_framework.Json.Parser.Strings.{parse_string-to_string_literal}
use lsp_framework.Json.Parser.Scalars.{
  FitsInteger, ReadsBack, IsScalar, StartsValue, StartsScalar, EndsToken, IsScalar-string,
  IsScalar-integer, IsScalar-bool, IsScalar-null, IsScalar-decimal,
}
use lsp_framework.Json.Parser.Runs.{
  parser, Reaches, here, next, run-Reaches, Leads, Leads-then, enter,
}
use lsp_framework.Json.Parser.Termination.{measure, weight, state_weight}
use lsp_framework.Json.RoundTrip.Layout.{
  entry, line_assoc, entry_assoc, array_assoc, object_assoc, line, line-IsBlank, value_sep-eq,
  EndsToken-line,
}
use lsp_framework.Json.RoundTrip.Elements.{
  Starts, ReadsValue, Reads, Reads-IsScalar, first_element, next_element, as_array-at,
}
use lsp_framework.Json.Parser.Rounds.{
  value-array, value-object, array-close, object-close, array-first, array-next, object-first,
  object-next, at_element, at_new_key,
}
use lsp_framework.Json.Parser.{
  Parser, Frame, State, value_state, object_state, object_key_state, array_state, frame, dispatch,
  run, parse, start, fuel_for, finish,
}
use lsp_framework.Json.RoundTrip.Arrays.{
  ReadsItems, Reads-array-nil, Reads-array-cons, ReadsItems-nil, ReadsItems-cons,
}
use lsp_framework.Json.RoundTrip.Objects.{
  ReadsFields, Reads-object-end, Reads-object-field, ReadsFields-end, ReadsFields-field,
}

module _ {D : Type 0} (dec : Decimals D) where
  -- The integers are in the range of `json::Integer`, the decimals are read back by `std::stod`, and no
  -- object has a key twice: each key is not among those before it.
  unfoldable mutual
    pub Printable : Value D → Type 0
    Printable (integer z) = FitsInteger z
    Printable (decimal d) = ReadsBack dec d
    Printable (array xs) = PrintableItems xs
    Printable (object fs) = PrintableFields end fs
    Printable _ = Unit

    pub PrintableItems : Items D → Type 0
    PrintableItems nil = Unit
    PrintableItems (cons x xs) = Printable x × PrintableItems xs

    pub PrintableFields : Fields D → Fields D → Type 0
    PrintableFields before end = Unit
    PrintableFields before (field k v fs) =
        (contains k before ≡ false) × Printable v × PrintableFields (append_field before k v) fs

  module _ (format : Bool) where
    Reads-decimal :
        (d : D) → ReadsBack dec d → Reads dec (decimal d) (print_decimal (dec.to_string d))
    Reads-decimal d h =
        rw print_decimal-id
          (Reads-IsScalar dec (decimal d) (dec.to_string d) (IsScalar-decimal dec d h))

    mutual
      unfolding Printable print append_field

      print-Reads : (level : ℕ) (v : Value D) → Printable v → Reads dec v (print dec format level v)
      print-Reads level null h = Reads-IsScalar dec null (codes "null") (IsScalar-null dec)
      print-Reads level (boolean b) h =
          Reads-IsScalar dec (boolean b) (print_bool b) (IsScalar-bool dec b)
      print-Reads level (integer z) h =
          Reads-IsScalar dec (integer z) (to_string z) (IsScalar-integer dec z h)
      print-Reads level (decimal d) h = Reads-decimal d h
      print-Reads level (string s) h =
          Reads-IsScalar dec (string s) (to_string_literal s) (IsScalar-string dec s)
      print-Reads level (array nil) h = Reads-array-nil dec format level
      print-Reads level (array (cons x xs)) (hx, hxs) =
          Reads-array-cons dec format level x xs (print-Reads (level + 1) x hx)
            (print-ReadsItems level xs hxs)
      print-Reads level (object end) h = Reads-object-end dec format level
      print-Reads level (object (field k v fs)) (fresh, hv, hfs) =
          Reads-object-field dec format level k v fs (print-Reads (level + 1) v hv)
            (print-ReadsFields level k v end fs hfs)

      print-ReadsItems :
          (level : ℕ) (xs : Items D) → PrintableItems xs → ReadsItems dec format level xs
      print-ReadsItems level nil h = ReadsItems-nil dec format level
      print-ReadsItems level (cons x xs) (hx, hxs) =
          ReadsItems-cons dec format level x xs (print-Reads (level + 1) x hx)
            (print-ReadsItems level xs hxs)

      print-ReadsFields :
          (level : ℕ) (j : Bytes) (u : Value D) (gs fs : Fields D)
          → PrintableFields (field j u gs) fs
          → ReadsFields dec format level (field j u gs) fs
      print-ReadsFields level j u gs end h = ReadsFields-end dec format level (field j u gs)
      print-ReadsFields level j u gs (field k v fs) (fresh, hv, hfs) =
          ReadsFields-field dec format level j u gs k v fs fresh (print-Reads (level + 1) v hv)
            (print-ReadsFields level j u (append_field gs k v) fs hfs)

    read_root : (v : Value D) → Printable v → Leads dec (start (stringify dec format v)) [] v []
    unfolding stringify modify_at
    read_root v h =
        let whole =
          (print-Reads 0 v h).1 [] [] null [] [] 0 tt (λ w. unfold deref modify_at in refl) tt in
        rw append-nil at whole

    -- Parsing what was printed gives the value back, whether it was formatted or not.
    pub parse-stringify : (v : Value D) → Printable v → parse dec (stringify dec format v) ≡ ok v
    unfolding parse finish skip_whitespace
    parse-stringify v h =
        let text = stringify dec format v in
        let (at, r) = read_root v h in
        let lower : measure dec (start text) < fuel_for text =
          unfold measure weight state_weight in omega arith in
        rw (run-Reaches dec (fuel_for text) (start text) (parser [] v [] at) r refl lower) refl
