-- ===== src/Uri/Refines.antt =====
-- A client of the class of lsp/uri.cpp sees five parts, whatever sequence of setters and removers it calls.
use mathlib.Core.Path.{subst}
use lsp_framework.Base.{
  ◌^◌, ◌<◌, ◌≡◌, refl, Bool, true, none, some, List, [], ◌∷◌, Bytes, All, map, length,
  if◌then◌else◌,
}
use lsp_framework.Base.Chars.{to_lower}
use lsp_framework.Uri.{
  Uri, normalize_escapes, set_scheme, set_authority, set_path, set_query, set_fragment,
  remove_authority, remove_query, remove_fragment, ends_scheme, ends_authority, ends_query,
}
use lsp_framework.Uri.Scan.{free}
use lsp_framework.Uri.View.{View, view, IsWellFormed}
use lsp_framework.Uri.Setters.{
  StandsFor, set_scheme_lem, set_authority_lem, set_query_lem, set_path-set_fragment, removers,
}

-- The public operations that change a Uri.
pub data Call : Type 0 where
  scheme authority path query fragment : Bytes → Call
  no_authority no_query no_fragment : Call

-- The object after a call, and what the call returns; a remover returns nothing, here true.
unfoldable pub call : Call → Uri → Uri × Bool
call (scheme s) u = set_scheme s u
call (authority s) u = set_authority s u
call (path s) u = set_path s u
call (query s) u = set_query s u
call (fragment s) u = set_fragment s u
call no_authority u = (remove_authority u, true)
call no_query u = (remove_query u, true)
call no_fragment u = (remove_fragment u, true)

unfoldable pub calls : List Call → Uri → Uri × List Bool
calls [] u = (u, [])
calls (c ∷ cs) u =
    let (u', answer) = call c u in let (u'', answers) = calls cs u' in (u'', answer ∷ answers)

-- What a call does to the parts.
abbrev pub call_view : Call → View → View × Bool
call_view (scheme s) v =
    (if free ends_scheme s then record v { scheme = map to_lower s } else v, free ends_scheme s)
call_view (authority s) v = (
  if free ends_authority s then record v { authority = some (normalize_escapes s) } else v,
  free ends_authority s,
)
call_view (path s) v = (record v { path = s }, true)
call_view (query s) v = (
  if free ends_query s then record v { query = some (normalize_escapes s) } else v,
  free ends_query s,
)
call_view (fragment s) v = (record v { fragment = some (normalize_escapes s) }, true)
call_view no_authority v = (record v { authority = none }, true)
call_view no_query v = (record v { query = none }, true)
call_view no_fragment v = (record v { fragment = none }, true)

unfoldable pub calls_view : List Call → View → View × List Bool
calls_view [] v = (v, [])
calls_view (c ∷ cs) v =
    let (v', answer) = call_view c v in
    let (v'', answers) = calls_view cs v' in (v'', answer ∷ answers)

-- The length of a part is kept in 16 bits.
abbrev pub IsShort : Call → Type 0
IsShort (scheme s) = length s < 2 ^ 16
IsShort (authority s) = length s < 2 ^ 16
IsShort (path s) = length s < 2 ^ 16
IsShort (query s) = length s < 2 ^ 16
IsShort (fragment s) = length s < 2 ^ 16
IsShort _ = Unit

-- The object stands for the parts, and the answers are the same.
abbrev pub Agrees : {A : Type 0} → Uri × A → View × A → Type 0
Agrees (u, a) (v, b) = StandsFor u v × (a ≡ b)

call-Agrees :
    (c : Call) (u : Uri) → IsWellFormed u → IsShort c → Agrees (call c u) (call_view c (view u))
unfolding call
call-Agrees (scheme s) u w h = let (answer, stands) = set_scheme_lem u w s h in (stands, answer)
call-Agrees (authority s) u w h =
    let (answer, stands) = set_authority_lem u w s h in (stands, answer)
call-Agrees (path s) u w h =
    let (answer, stands, _, _) = set_path-set_fragment u w s h in (stands, answer)
call-Agrees (query s) u w h = let (answer, stands) = set_query_lem u w s h in (stands, answer)
call-Agrees (fragment s) u w h =
    let (_, _, answer, stands) = set_path-set_fragment u w s h in (stands, answer)
call-Agrees no_authority u w h = ((removers u w).0, refl)
call-Agrees no_query u w h = ((removers u w).1, refl)
call-Agrees no_fragment u w h = ((removers u w).2, refl)

-- Every sequence of calls with texts shorter than 2^16 bytes, on a well-formed object, leaves a well-formed object that stands
-- for the parts that the calls make of its parts, and gives the answers that they give.
pub calls-Agrees :
    (cs : List Call) (u : Uri) (v : View)
    → StandsFor u v
    → All IsShort cs
    → Agrees (calls cs u) (calls_view cs v)
unfolding calls calls_view
calls-Agrees [] u v stands h = (stands, refl)
calls-Agrees (c ∷ cs) u v (w, e) (hc, h) =
    let (stands, answer) =
      subst (λ p. Agrees (call c u) (call_view c p)) e (call-Agrees c u w hc) in
    let (after, answers) = calls-Agrees cs (call c u).0 (call_view c v).0 stands h in
    (after, rw (answer, answers) refl)
