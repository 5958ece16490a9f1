-- ===== src/Sdk/Transport/Answered.antt =====
-- When a request resolves, and how its id stands among the others.

use ponshot.Base.Every.{IsDistinct, All-map}
use ponshot.Base.{
  ℕ, ◌+◌, ◌<◌, ◌≡◌, ◌≢◌, refl, ◌↔◌, Option, Option-cases, none, some, List, [], ◌∷◌, map, All,
  Bool-cases, inl, inr, false, leb, arith,
}
use ponshot.Base.Text.{Text}
use ponshot.Sdk.Transport.{
  Exchange, RpcOutcome, RpcResponse, RpcError, response, timed_out, failed, resolved, rejected,
  status_code, post_json_rpc, answer_of, requests, parsed_body,
}

pub rejected-ne-resolved : {A : Type 0} (e : RpcError) (x : A) → rejected e ≢ resolved x
rejected-ne-resolved e x p = ground (arith, p)

resolved_inj : {A : Type 0} {x y : A} → resolved x ≡ resolved y → x ≡ y
resolved_inj e = cc

module _ {J : Type 0} (parse : Text → Option (RpcResponse J)) (timeout_ms : ℕ) where
  -- An exchange that ends with a good status and a body that is a response without an error.
  abbrev pub Succeeds : J → Exchange → Type 0
  Succeeds x exchange =
      (status : Option ℕ) × (body : Text) × (r : RpcResponse J) × (exchange ≡ response status body)
      × (status_code status < 400)
      × (parse body ≡ some r)
      × (r.error ≡ none)
      × (r.result ≡ x)

  resolves :
      (x : J) (exchange : Exchange)
      → answer_of parse timeout_ms (post_json_rpc parse timeout_ms exchange) ≡ resolved x
      → Succeeds x exchange
  unfolding post_json_rpc
  resolves x (response status body) e = elim (Bool-cases (leb 400 (status_code status))) [
    | inl bad ↦ absurd (rejected-ne-resolved _ x (rw (post_json_rpc, bad) at e))
    | inr good ↦ elim (Option-cases (parse body)) [
      | inl broken ↦
          absurd (rejected-ne-resolved _ x (rw (post_json_rpc, good, parsed_body, broken) at e))
      | inr (r, read) ↦ elim (Option-cases r.error) [
        | inl fine ↦ (
          status,
          body,
          r,
          refl,
          ground (arith, good),
          read,
          fine,
          resolved_inj (rw (post_json_rpc, good, parsed_body, read, fine) at e),
        )
        | inr (err, bad) ↦
            absurd
              (rejected-ne-resolved _ x (rw (post_json_rpc, good, parsed_body, read, bad) at e))
      ]
    ]
  ]
  resolves x timed_out e = absurd (rejected-ne-resolved _ x e)
  resolves x (failed message) e = absurd (rejected-ne-resolved _ x e)

  succeeded :
      (x : J) (exchange : Exchange)
      → Succeeds x exchange
      → answer_of parse timeout_ms (post_json_rpc parse timeout_ms exchange) ≡ resolved x
  unfolding post_json_rpc
  succeeded x exchange (status, body, r, ends, ok_status, read, fine, same) =
      let good : leb 400 (status_code status) ≡ false = ground (arith, ok_status) in
      rw (ends, post_json_rpc, good, parsed_body, read, fine, same) refl

  -- A request resolves with a result just if the response has a status below 400 and a body that
  -- parses, with that result and no error.
  pub answer_of-Succeeds :
      (x : J) (exchange : Exchange)
      → (answer_of parse timeout_ms (post_json_rpc parse timeout_ms exchange) ≡ resolved x)
        ↔ Succeeds x exchange
  answer_of-Succeeds x exchange = (resolves x exchange, succeeded x exchange)

  abbrev pub ids : List (ℕ × RpcOutcome J) → List ℕ
  ids sent = map (λ s. s.0) sent

  later_ids :
      (id : ℕ) (xs : List Exchange) → All (λ n. id < n) (ids (requests parse timeout_ms id xs))
  unfolding requests
  later_ids id [] = tt
  later_ids id (x ∷ xs) = (
    omega arith,
    All-map (λ n. id + 1 < n) (λ n. id < n) _ (λ n h. omega (arith, h)) (later_ids (id + 1) xs),
  )

  -- The ids of a transport's requests differ.
  pub requests-IsDistinct :
      (id : ℕ) (xs : List Exchange) → IsDistinct (ids (requests parse timeout_ms id xs))
  unfolding requests
  requests-IsDistinct id [] = tt
  requests-IsDistinct id (x ∷ xs) = (
    All-map (λ n. id + 1 < n) (λ n. id + 1 ≢ n) _ (λ n h e. omega (arith, h, e))
        (later_ids (id + 1) xs),
    requests-IsDistinct (id + 1) xs,
  )
