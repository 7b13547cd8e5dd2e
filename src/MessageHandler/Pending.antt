-- ===== src/MessageHandler/Pending.antt =====
-- The pending requests of lsp/messagehandler.cpp: `sendRequest` adds one under a new id, and
-- `processResponse` completes and removes it.
use mathlib.Core.Path.{subst}
use lsp_framework.Base.{
  ℕ, ◌+◌, ◌^◌, ◌%◌, ◌<◌, ◌≤◌, ◌≡◌, ◌≢◌, refl, sym, ap, ◌∙◌, true, false, Option, none, some, List,
  [], ◌∷◌, All, Bytes, bytes_eq_refl, eq_of_bytes_eq, Result, ok, err, Option-cases, Bool-cases,
  inl, inr, arith, ==_iff, ==_refl, not-true, lt→ltb, if◌then◌else◌, ℤ, pos, negsuc,
}
use lsp_framework.Json.Value.{Value}
use lsp_framework.Jsonrpc.{MessageId, null_id, integer_id, string_id, Response}
use lsp_framework.MessageHandler.{
  MessageHandler, lookup_id, erase_id, signed, complete, after_complete, process_response,
  send_request,
}
use lsp_framework.MessageHandler.Outcomes.{Thrown, RequestResult, Event, id_eq, integer_eq}

integer_eq_refl : (i : ℤ) → integer_eq i i ≡ true
integer_eq_refl (pos n) = ==_refl n
integer_eq_refl (negsuc n) = ==_refl n

id_eq_refl : (i : MessageId) → id_eq i i ≡ true
id_eq_refl null_id = refl
id_eq_refl (integer_id i) = integer_eq_refl i
id_eq_refl (string_id s) = bytes_eq_refl s

eq_of_integer_eq : (i j : ℤ) → integer_eq i j ≡ true → i ≡ j
eq_of_integer_eq (pos m) (pos n) h = ap ℤ.pos ((==_iff m n).0 h)
eq_of_integer_eq (negsuc m) (negsuc n) h = ap negsuc ((==_iff m n).0 h)
eq_of_integer_eq (pos m) (negsuc n) h = cc
eq_of_integer_eq (negsuc m) (pos n) h = cc

eq_of_id_eq : (i j : MessageId) → id_eq i j ≡ true → i ≡ j
eq_of_id_eq null_id null_id h = refl
eq_of_id_eq (integer_id i) (integer_id j) h = ap integer_id (eq_of_integer_eq i j h)
eq_of_id_eq (string_id s) (string_id t) h = ap string_id (eq_of_bytes_eq s t h)
eq_of_id_eq null_id (integer_id j) h = cc
eq_of_id_eq null_id (string_id j) h = cc
eq_of_id_eq (integer_id i) null_id h = cc
eq_of_id_eq (integer_id i) (string_id j) h = cc
eq_of_id_eq (string_id i) null_id h = cc
eq_of_id_eq (string_id i) (integer_id j) h = cc

lookup_id-erase_id :
    {A : Type 0} (k : MessageId) (xs : List (MessageId × A)) → lookup_id k (erase_id k xs) ≡ none
unfolding lookup_id erase_id
lookup_id-erase_id k [] = refl
lookup_id-erase_id k ((j, a) ∷ xs) = elim (Bool-cases (id_eq j k)) [
  | inl e ↦ rw e (lookup_id-erase_id k xs)
  | inr e ↦ rw (e, e) (lookup_id-erase_id k xs)
]

lookup_id-erase_id_ne :
    {A : Type 0} (k i : MessageId) (xs : List (MessageId × A))
    → k ≢ i
    → lookup_id k (erase_id i xs) ≡ lookup_id k xs
unfolding lookup_id erase_id
lookup_id-erase_id_ne k i [] ne = refl
lookup_id-erase_id_ne k i ((j, a) ∷ xs) ne = elim (Bool-cases (id_eq j i)) [
  | inl e ↦
      rw (e, not-true (id_eq j k) (λ c. ne (sym (eq_of_id_eq j k c) ∙ eq_of_id_eq j i e)))
        (lookup_id-erase_id_ne k i xs ne)
  | inr e ↦ rw e (ap (λ t. if id_eq j k then some a else t) (lookup_id-erase_id_ne k i xs ne))
]

erase_id-All :
    {A : Type 0} (P : MessageId × A → Type 0) (k : MessageId) (xs : List (MessageId × A))
    → All P xs
    → All P (erase_id k xs)
unfolding erase_id
erase_id-All P k [] h = tt
erase_id-All P k ((j, a) ∷ xs) (ha, h) = elim (Bool-cases (id_eq j k)) [
  | inl e ↦ rw e (erase_id-All P k xs h)
  | inr e ↦ rw e (ha, erase_id-All P k xs h)
]

-- The id has been given out when the counter stood at `n`, before it wrapped around.
abbrev pub IsIssued : ℕ → MessageId → Type 0
IsIssued n (integer_id (ℤ.pos m)) = m ≤ n
IsIssued n _ = ⊥

IsIssued-suc : (n : ℕ) (i : MessageId) → IsIssued n i → IsIssued (n + 1) i
IsIssued-suc n (integer_id (ℤ.pos m)) h = omega arith
IsIssued-suc n (integer_id (negsuc m)) h = absurd h
IsIssued-suc n null_id h = absurd h
IsIssued-suc n (string_id s) h = absurd h

IsIssued-ne : (n : ℕ) (i : MessageId) → IsIssued n i → id_eq i (integer_id (ℤ.pos (n + 1))) ≡ false
IsIssued-ne n (integer_id (ℤ.pos m)) h = ground arith
IsIssued-ne n (integer_id (negsuc m)) h = absurd h
IsIssued-ne n null_id h = absurd h
IsIssued-ne n (string_id s) h = absurd h

lookup_id-IsIssued :
    {A : Type 0} (n : ℕ) (xs : List (MessageId × A))
    → All (λ e. IsIssued n e.0) xs
    → lookup_id (integer_id (ℤ.pos (n + 1))) xs ≡ none
unfolding lookup_id
lookup_id-IsIssued n [] h = refl
lookup_id-IsIssued n ((j, a) ∷ xs) (hj, h) = rw (IsIssued-ne n j hj) (lookup_id-IsIssued n xs h)

All-IsIssued-suc :
    {A : Type 0} (n : ℕ) (xs : List (MessageId × A))
    → All (λ e. IsIssued n e.0) xs
    → All (λ e. IsIssued (n + 1) e.0) xs
All-IsIssued-suc n [] h = tt
All-IsIssued-suc n ((j, a) ∷ xs) (hj, h) = (IsIssued-suc n j hj, All-IsIssued-suc n xs h)

sent-IsIssued :
    {A : Type 0} (n m : ℕ) (i : MessageId) (q : A) (xs : List (MessageId × A))
    → m ≡ n + 1
    → i ≡ integer_id (ℤ.pos (n + 1))
    → All (λ e. IsIssued n e.0) xs
    → All (λ e. IsIssued m e.0) ((i, q) ∷ erase_id i xs)
sent-IsIssued {A} n m i q xs em ei hs =
    let k = integer_id (ℤ.pos (n + 1)) in
    let issued : All (λ e. IsIssued (n + 1) e.0) ((k, q) ∷ erase_id k xs) = (
      omega arith,
      All-IsIssued-suc n (erase_id k xs) (erase_id-All (λ e. IsIssued n e.0) k xs hs),
    ) in
    subst (λ m. All (λ (e : MessageId × A). IsIssued m e.0) ((i, q) ∷ erase_id i xs)) (sym em)
      (subst (λ i. All (λ (e : MessageId × A). IsIssued (n + 1) e.0) ((i, q) ∷ erase_id i xs))
        (sym ei) issued)

signed-small : (n : ℕ) → n + 1 < 2 ^ 31 → signed ((n + 1) % 2 ^ 32) ≡ ℤ.pos (n + 1)
signed-small n h =
    let e : (n + 1) % 2 ^ 32 ≡ n + 1 = omega arith in rw (e, lt→ltb (n + 1) (2 ^ 31) h) refl

module _ {D : Type 0} where
  -- The message handler without the pending request of an id.
  abbrev pub without : MessageId → MessageHandler D → MessageHandler D
  without i h = record h { pending_requests = erase_id i h.pending_requests }

  abbrev pub PendingAreIssued : MessageHandler D → Type 0
  PendingAreIssued h = All (λ e. IsIssued h.unique_request_id e.0) h.pending_requests

  pub process_response-none :
      (r : Response D) (h : MessageHandler D)
      → lookup_id r.id h.pending_requests ≡ none
      → process_response r h ≡ (ok tt, h)
  unfolding process_response
  process_response-none r h e = rw (process_response, e) refl

  pub process_response-some :
      (r : Response D) (h : MessageHandler D) (q : RequestResult D)
      → lookup_id r.id h.pending_requests ≡ some q
      → process_response r h ≡ after_complete (without r.id h) (complete q r)
  unfolding process_response
  process_response-some r h q e = rw (process_response, e) refl

  after_complete-pending :
      (h : MessageHandler D) (o : Result (Thrown D) (Event D))
      → (after_complete h o).1.pending_requests ≡ h.pending_requests
  after_complete-pending h (ok e) = refl
  after_complete-pending h (err e) = refl

  process_response-pending :
      (r : Response D) (h : MessageHandler D)
      → lookup_id r.id (process_response r h).1.pending_requests ≡ none
  process_response-pending r h = elim (Option-cases (lookup_id r.id h.pending_requests)) [
    | inl e ↦ rw (process_response-none r h e) e
    | inr (q, e) ↦ rw (process_response-some r h q e) (
        ap (lookup_id r.id) (after_complete-pending (without r.id h) (complete q r))
        ∙ lookup_id-erase_id r.id h.pending_requests)
  ]

  -- A request is completed at most once: after a response has been processed, be it that its callback
  -- threw, another one with the same id changes nothing.
  pub process_response-process_response :
      (r s : Response D) (h : MessageHandler D)
      → s.id ≡ r.id
      → process_response s (process_response r h).1 ≡ (ok tt, (process_response r h).1)
  process_response-process_response r s h e =
      process_response-none s (process_response r h).1 (rw e (process_response-pending r h))

  -- The response to a request that has been sent reaches the result that was registered with it, which is
  -- then no longer pending; the pending requests of other ids are as before.
  pub process_response-send_request :
      (method : Bytes) (q : RequestResult D) (params : Option (Value D)) (h : MessageHandler D)
      (r : Response D) (j : MessageId)
      → r.id ≡ (send_request method q params h).0
      → j ≢ r.id
      → (process_response r (send_request method q params h).1
          ≡ after_complete (without r.id (send_request method q params h).1) (complete q r))
        × (lookup_id j (send_request method q params h).1.pending_requests
            ≡ lookup_id j h.pending_requests)
  unfolding send_request lookup_id
  process_response-send_request method q params h r j e ne =
      let i = integer_id (signed ((h.unique_request_id + 1) % 2 ^ 32)) in
      (
        process_response-some r (send_request method q params h).1 q (rw (e, id_eq_refl i) refl),
        rw (not-true (id_eq i j) (λ c. ne (sym (eq_of_id_eq i j c) ∙ sym e)))
            (lookup_id-erase_id_ne j i h.pending_requests (λ c. ne (c ∙ sym e))),
      )

  after_complete-PendingAreIssued :
      (h : MessageHandler D) (o : Result (Thrown D) (Event D))
      → PendingAreIssued h
      → PendingAreIssued (after_complete h o).1
  after_complete-PendingAreIssued h (ok e) hs = hs
  after_complete-PendingAreIssued h (err e) hs = hs

  process_response-PendingAreIssued :
      (r : Response D) (h : MessageHandler D)
      → PendingAreIssued h
      → PendingAreIssued (process_response r h).1
  process_response-PendingAreIssued r h hs =
      elim (Option-cases (lookup_id r.id h.pending_requests)) [
        | inl e ↦ rw (process_response-none r h e) hs
        | inr (q, e) ↦ rw (process_response-some r h q e) (
            after_complete-PendingAreIssued (without r.id h) (complete q r)
              (erase_id-All (λ x. IsIssued h.unique_request_id x.0) r.id h.pending_requests hs))
      ]

  -- As long as the counter has not wrapped around, the ids of the pending requests have been given
  -- out before; then the id of the next request is none of them, and this stays so when a request is
  -- sent and when a response is processed.
  pub send_request-PendingAreIssued :
      (method : Bytes) (q : RequestResult D) (params : Option (Value D)) (h : MessageHandler D)
      (r : Response D)
      → h.unique_request_id + 1 < 2 ^ 31
      → PendingAreIssued h
      → (lookup_id (send_request method q params h).0 h.pending_requests ≡ none)
        × PendingAreIssued (send_request method q params h).1
        × PendingAreIssued (process_response r h).1
  unfolding send_request
  send_request-PendingAreIssued method q params h r lt hs =
      let n = h.unique_request_id in
      let e : (n + 1) % 2 ^ 32 ≡ n + 1 = omega arith in
      let sent : PendingAreIssued (send_request method q params h).1 =
        sent-IsIssued n _ _ q h.pending_requests e (ap integer_id (signed-small n lt)) hs in
      (
        rw (signed-small n lt) (lookup_id-IsIssued n h.pending_requests hs),
        sent,
        process_response-PendingAreIssued r h hs,
      )
