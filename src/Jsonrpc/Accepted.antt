-- ===== src/Jsonrpc/Accepted.antt =====
-- What holds of every message that the reader of lsp/jsonrpc/jsonrpc.cpp accepts.
use mathlib.Core.Path.{subst}
use lsp_framework.Base.{
  sym, ok_injective, arith, ◌∙◌, ap, err_ne_ok, Option-cases, ◌≡◌, true, false, some, Bytes,
  eq_of_bytes_eq, Bool-cases, inl, inr, ok, >>=-eq-ok,
}
use lsp_framework.Json.Value.{
  Value, Fields, Decimals, null, boolean, integer, decimal, string, object, array, contains, find,
  get, as_string,
}
use lsp_framework.Jsonrpc.{
  Request, Response, Message, request, response, verify_version, verify_protocol_version,
  jsonrpc_key, protocol_version, method_key, optional_params, optional_error, verify_outcome,
  id_member, optional_member, params_key, result_key, error_key, request_from_json,
  response_from_json, message_from_json, has_one_outcome,
}

get-eq-ok :
    {D : Type 0} (k : Bytes) (fs : Fields D) (v : Value D) → get k fs ≡ ok v → find k fs ≡ some v
unfolding get
get-eq-ok k fs v h = elim (Option-cases (find k fs)) [
  | inl e ↦ absurd (err_ne_ok (rw (get, e) at h))
  | inr (w, e) ↦ cc (rw (get, e) at h, e)
]

verify_version-eq-ok :
    {D : Type 0} (v : Value D) → verify_version v ≡ ok tt → v ≡ string protocol_version
verify_version-eq-ok (string s) h = ground (arith, eq_of_bytes_eq s protocol_version)
verify_version-eq-ok null h = cc
verify_version-eq-ok (boolean _) h = cc
verify_version-eq-ok (integer _) h = cc
verify_version-eq-ok (decimal _) h = cc
verify_version-eq-ok (array _) h = cc
verify_version-eq-ok (object _) h = cc

verify_protocol_version-eq-ok :
    {D : Type 0} (json : Fields D)
    → verify_protocol_version json ≡ ok tt
    → find jsonrpc_key json ≡ some (string protocol_version)
unfolding verify_protocol_version
verify_protocol_version-eq-ok json h = elim (Bool-cases (contains jsonrpc_key json)) [
  | inl c ↦
      let (v, g, e) = >>=-eq-ok (get jsonrpc_key json) verify_version (rw c at h) in
      get-eq-ok jsonrpc_key json v g ∙ ap some (verify_version-eq-ok v e)
  | inr c ↦ absurd (err_ne_ok (rw c at h))
]

as_string-eq-ok : {D : Type 0} (v : Value D) (s : Bytes) → as_string v ≡ ok s → v ≡ string s
as_string-eq-ok (string t) s h = ap string (ok_injective h)
as_string-eq-ok null s h = cc
as_string-eq-ok (boolean _) s h = cc
as_string-eq-ok (integer _) s h = cc
as_string-eq-ok (decimal _) s h = cc
as_string-eq-ok (array _) s h = cc
as_string-eq-ok (object _) s h = cc

verify_outcome-eq-ok :
    {D : Type 0} (q r : Response D) → verify_outcome q ≡ ok r → has_one_outcome r ≡ true
verify_outcome-eq-ok q r h = elim (Bool-cases (has_one_outcome q)) [
  | inl e ↦ sym (ap has_one_outcome (ok_injective (rw e at h))) ∙ e
  | inr e ↦ absurd (err_ne_ok (rw e at h))
]

-- What a request or a response says of the object it was read from.
abbrev pub IsFrom : {D : Type 0} → Fields D → Message D → Type 0
IsFrom json (request r) = find method_key json ≡ some (string r.method)
IsFrom json (response r) = (contains method_key json ≡ false) × (has_one_outcome r ≡ true)

module _ {D : Type 0} (dec : Decimals D) where
  request_from_json-eq-ok :
      (json : Fields D) (r : Request D)
      → request_from_json dec json ≡ ok r
      → (verify_protocol_version json ≡ ok tt) × (find method_key json ≡ some (string r.method))
  unfolding request_from_json
  request_from_json-eq-ok json r h =
      let (u, version, h1) = >>=-eq-ok (verify_protocol_version json) _ h in
      let (m, g, h2) = >>=-eq-ok (get method_key json) _ h1 in
      let (method, s, h3) = >>=-eq-ok (as_string m) _ h2 in
      let (i, hi, h4) = >>=-eq-ok (id_member dec json) _ h3 in
      let (p, hp, h5) = >>=-eq-ok (optional_member params_key json) _ h4 in
      let (ps, hps, h6) = >>=-eq-ok (optional_params p) _ h5 in
      (
        version,
        get-eq-ok method_key json m g
            ∙ ap some (as_string-eq-ok m method s ∙ ap (λ r. string r.method) (ok_injective h6)),
      )

  response_from_json-eq-ok :
      (json : Fields D) (r : Response D)
      → response_from_json dec json ≡ ok r
      → (verify_protocol_version json ≡ ok tt) × (has_one_outcome r ≡ true)
  unfolding response_from_json
  response_from_json-eq-ok json r h =
      let (u, version, h1) = >>=-eq-ok (verify_protocol_version json) _ h in
      let (i, hi, h2) = >>=-eq-ok (id_member dec json) _ h1 in
      let (v, hv, h3) = >>=-eq-ok (optional_member result_key json) _ h2 in
      let (e, he, h4) = >>=-eq-ok (optional_member error_key json) _ h3 in
      let (error, herror, h5) = >>=-eq-ok (optional_error dec e) _ h4 in
      (version, verify_outcome-eq-ok _ r h5)

-- A message that the reader accepts came from an object whose member "jsonrpc" is the string
-- "2.0"; a request has the string under "method" as its method, and a response, whose object has no
-- "method", has just one of result and error.
pub message_from_json-IsFrom :
    {D : Type 0} (dec : Decimals D) (json : Fields D) (m : Message D)
    → message_from_json dec json ≡ ok m
    → (find jsonrpc_key json ≡ some (string protocol_version)) × IsFrom json m
unfolding message_from_json
message_from_json-IsFrom dec json m h = elim (Bool-cases (contains method_key json)) [
  | inl c ↦
      let (r, hr, e) = >>=-eq-ok (request_from_json dec json) _ (rw c at h) in
      let (version, method) = request_from_json-eq-ok dec json r hr in
      (verify_protocol_version-eq-ok json version, subst (IsFrom json) (ok_injective e) method)
  | inr c ↦
      let (r, hr, e) = >>=-eq-ok (response_from_json dec json) _ (rw c at h) in
      let (version, outcome) = response_from_json-eq-ok dec json r hr in
      (
        verify_protocol_version-eq-ok json version,
        subst (IsFrom json) (ok_injective e) (c, outcome),
      )
]
