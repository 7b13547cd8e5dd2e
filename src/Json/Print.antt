-- ===== src/Json/Print.antt =====
-- `stringify` of lsp/json/json.cpp. Each function gives the text that is appended to `str`.
pub mod Trim
use Prim.Native.Nat.{pred}
use lsp_framework.Base.{
  ℕ, zero, suc, ◌+◌, ◌-◌, ◌≡◌, refl, Bool, true, false, not, ◌||◌, Option, none, some, [], ◌∷◌,
  ◌++◌, Bytes, codes, ltb, ◌==◌, if◌then◌else◌, length, take, get_elem?, min, pos,
}
use lsp_framework.Base.Chars.{to_string, to_string_unsigned}
use lsp_framework.Json.Literal.{to_string_literal}
use lsp_framework.Json.Value.{
  Value, Items, Fields, Decimals, null, boolean, integer, decimal, string, array, object, nil, cons,
  end, field,
}

-- numberStr[i], which is `\0` at the size.
abbrev char_at : Bytes → ℕ → ℕ
char_at s i = elim (get_elem? s i) [ none ↦ 0 | some c ↦ c ]

-- The loop over `i` that pops characters off `numberStr`.
trim_zeros : ℕ → Bytes → Bytes
trim_zeros zero s = s
trim_zeros (suc i) s =
    let rest = trim_zeros i (take (length s - 1) s) in
    if not (ltb 2 (suc i))
    then s
    else if not (char_at s (suc i) == b'0') || char_at s i == b'.'
    then s
    else rest

unfoldable pub print_decimal : Bytes → Bytes
unfolding trim_zeros
print_decimal s = trim_zeros (length s) s

unfoldable pub tabs : ℕ → Bytes
tabs zero = []
tabs (suc n) = b'\t' ∷ tabs n

-- The 32 tabs of `Tabs` bound the indentation.
unfoldable pub get_indent : Bool → ℕ → Bytes
unfolding tabs
get_indent format level = if format then tabs (min level 32) else []

abbrev pub key_sep : Bool → Bytes
key_sep format = if format then codes ": " else codes ":"

abbrev pub value_sep : Bool → Bytes
value_sep format = if format then codes ",\n" else codes ","

-- `listStart` and `listEnd`
abbrev pub list_edge : Bool → Bytes
list_edge format = if format then codes "\n" else []

abbrev pub print_bool : Bool → Bytes
print_bool true = codes "true"
print_bool false = codes "false"

module _ {D : Type 0} (dec : Decimals D) (format : Bool) where
  -- `stringifyImplementation` at an indent level.
  unfoldable mutual
    pub print : ℕ → Value D → Bytes
    print level null = codes "null"
    print level (boolean b) = print_bool b
    print level (integer i) = to_string i
    print level (decimal d) = print_decimal (dec.to_string d)
    print level (string s) = to_string_literal s
    print level (array xs) = b'[' ∷ (print_items level xs ++ codes "]")
    print level (object fs) = b'{' ∷ (print_fields level fs ++ codes "}")

    -- The first element, then the loop over the others, and the indent of the closing bracket.
    pub print_items : ℕ → Items D → Bytes
    print_items level nil = []
    print_items level (cons x xs) =
        list_edge format
        ++ (get_indent format (level + 1)
            ++ (print (level + 1) x
                ++ (print_more_items (level + 1) xs
                    ++ (list_edge format ++ get_indent format level))))

    pub print_more_items : ℕ → Items D → Bytes
    print_more_items level nil = []
    print_more_items level (cons x xs) =
        value_sep format
        ++ (get_indent format level ++ (print level x ++ print_more_items level xs))

    pub print_fields : ℕ → Fields D → Bytes
    print_fields level end = []
    print_fields level (field k v fs) =
        list_edge format
        ++ (get_indent format (level + 1)
            ++ (to_string_literal k
                ++ (key_sep format
                    ++ (print (level + 1) v
                        ++ (print_more_fields (level + 1) fs
                            ++ (list_edge format ++ get_indent format level))))))

    pub print_more_fields : ℕ → Fields D → Bytes
    print_more_fields level end = []
    print_more_fields level (field k v fs) =
        value_sep format
        ++ (get_indent format level
            ++ (to_string_literal k
                ++ (key_sep format ++ (print level v ++ print_more_fields level fs))))

unfoldable pub stringify : {D : Type 0} → Decimals D → Bool → Value D → Bytes
stringify dec format v = print dec format 0 v
