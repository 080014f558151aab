-- ===== src/Webhooks/Delivery.antt =====
-- The loop that delivers an event.
use multi_tenant_saas_gatewa.Common.{
  ℕ, zero, suc, ◌+◌, ◌<◌, ◌≤◌, String, ◌≡◌, ◌≢◌, refl, ap, ◌∙◌, ◌⊎◌, inl, inr, true, false, Option,
  none, some, List, ◌∷◌, arith, Option-cases, ◌==◌,
}
use multi_tenant_saas_gatewa.Common.Outcome.{ok, throw, Exception}
use multi_tenant_saas_gatewa.Database.{Entity, Repository}
use multi_tenant_saas_gatewa.Webhooks.{
  Webhook, WebhookEvent, Post, Net, State, refusal, attempts, deliver, request, delivered, failed,
  sign, verify_signature,
}

-- The log after `n` more of one request.
unfoldable pub posted : ℕ → Post → List Post → List Post
posted zero post log = log
posted (suc n) post log = posted n post (post ∷ log)

ℕ-cases : (a b : ℕ) → (a ≡ b) ⊎ (a ≢ b)
ℕ-cases a b = ground arith

module _ (R : Repository Webhook) (net : Net) where
  attempts_success :
      (post : Post) (now : ℕ → ℕ) (left attempt k d : ℕ) (w saved : Entity Webhook)
      (last : Option Exception) (t : R.Table) (s : State R)
      → attempt + d ≡ k
      → d < left
      → ((j : ℕ) → attempt ≤ j → j < k → refusal (net.fetch post j) ≢ none)
      → refusal (net.fetch post k) ≡ none
      → R.save (delivered (now (suc k)) w) s.table ≡ ok (saved, t)
      → attempts R net post now left attempt w last s
        ≡ (ok tt, record { table = t; sent = posted (suc d) post s.sent })
  unfolding attempts posted
  attempts_success post now zero attempt k d w saved last t s at lt bad good done =
      absurd (ground arith)
  attempts_success post now (suc left) attempt k zero w saved last t s at lt bad good done =
      let same : attempt ≡ k = omega (arith, at) in
      let here : refusal (net.fetch post attempt) ≡ none = ground (arith, good) in
      let kept : R.save (delivered (now (suc attempt)) w) s.table ≡ ok (saved, t) = rw same done in
      rw (here, attempts, kept) refl
  attempts_success post now (suc left) attempt k (suc d) w saved last t s at lt bad good done =
      elim (Option-cases (refusal (net.fetch post attempt))) [
        | inl fine ↦ absurd (bad attempt (ground arith) (ground arith) fine)
        | inr (e, refused) ↦
            rw (refused, attempts)
              (attempts_success post now left (suc attempt) k d w saved (some e) t
                (record s { sent = post ∷ s.sent }) (ground arith) (ground arith)
                (λ j le lt. bad j (ground arith) lt) good done)
      ]

  attempts_exhausted :
      (post : Post) (now : ℕ → ℕ) (left attempt : ℕ) (w saved : Entity Webhook)
      (last : Option Exception) (e : Exception) (t : R.Table) (s : State R)
      → ((j : ℕ) → attempt ≤ j → j < attempt + suc left → refusal (net.fetch post j) ≢ none)
      → refusal (net.fetch post (attempt + left)) ≡ some e
      → R.save (failed w) s.table ≡ ok (saved, t)
      → attempts R net post now (suc left) attempt w last s
        ≡ (throw e, record { table = t; sent = posted (suc left) post s.sent })
  unfolding attempts posted
  attempts_exhausted post now zero attempt w saved last e t s bad worst done =
      let here : refusal (net.fetch post attempt) ≡ some e = ground (arith, worst) in
      rw (here, attempts, done) refl
  attempts_exhausted post now (suc left) attempt w saved last e t s bad worst done =
      elim (Option-cases (refusal (net.fetch post attempt))) [
        | inl fine ↦ absurd (bad attempt (ground arith) (ground arith) fine)
        | inr (x, refused) ↦
            rw (refused, attempts)
              (attempts_exhausted post now left (suc attempt) w saved (some x) e t
                (record s { sent = post ∷ s.sent }) (λ j le lt. bad j (ground arith) (ground arith))
                (ground (arith, worst, sum)) done)
      ]
    where
      sum : suc attempt + left ≡ attempt + suc left
      sum = ground arith

  -- When the first `k` answers are refusals, the next is not, `k` is below the limit on attempts and
  -- the row can be saved: `deliver` succeeds after exactly `k + 1` requests, all the same, and the row
  -- has one delivery more.
  pub deliver_success :
      (w saved : Entity Webhook) (event : WebhookEvent) (payload : String) (now : ℕ → ℕ) (k : ℕ)
      (t : R.Table) (s : State R)
      → k < w.own.max_retries
      → ((j : ℕ) → j < k → refusal (net.fetch (request R net w event payload (now 0)) j) ≢ none)
      → refusal (net.fetch (request R net w event payload (now 0)) k) ≡ none
      → R.save (delivered (now (suc k)) w) s.table ≡ ok (saved, t)
      → deliver R net w event payload now s ≡ (
        ok tt,
        record { table = t; sent = posted (suc k) (request R net w event payload (now 0)) s.sent },
      )
  unfolding deliver
  deliver_success w saved event payload now k t s lt bad good done =
      attempts_success _ now w.own.max_retries 0 k k w saved none t s (ground arith) lt
        (λ j _ lt. bad j lt) good done

  -- When every answer within the limit on attempts is a refusal and the row can be saved: `deliver`
  -- throws the last refusal after as many requests as the limit allows, and the row has one failure
  -- more and no delivery more.
  pub deliver_exhausted :
      (w saved : Entity Webhook) (event : WebhookEvent) (payload : String) (now : ℕ → ℕ) (left : ℕ)
      (e : Exception) (t : R.Table) (s : State R)
      → w.own.max_retries ≡ suc left
      → ((j : ℕ)
          → j < suc left
          → refusal (net.fetch (request R net w event payload (now 0)) j) ≢ none)
      → refusal (net.fetch (request R net w event payload (now 0)) left) ≡ some e
      → R.save (failed w) s.table ≡ ok (saved, t)
      → deliver R net w event payload now s ≡ (
        throw e,
        record {
          table = t;
          sent = posted (suc left) (request R net w event payload (now 0)) s.sent;
        },
      )
  unfolding deliver
  deliver_exhausted w saved event payload now left e t s limit bad worst done =
      ap (λ n. attempts R net (request R net w event payload (now 0)) now n 0 w none s) limit
      ∙ (attempts_exhausted _ now left 0 w saved none e t s (λ j _ lt. bad j (ground (arith, lt)))
          (ground (arith, worst)) done)

  -- `crypto.timingSafeEqual`, as Node documents it: texts of different byte lengths are an error.
  pub record IsTimingSafeEqual (byte_length : String → ℕ) : Type 0 where
    pub same_length :
        (a b : String) → byte_length a ≡ byte_length b → net.timing_safe_equal a b ≡ ok (a == b)
    pub other_length :
        (a b : String)
        → byte_length a ≢ byte_length b
        → (e : Exception) × (net.timing_safe_equal a b ≡ throw e)

  -- A body passes with the signature that a delivery of it carries. Any other received text of the
  -- same byte length is answered with `false`, and one of another length is not answered but throws.
  pub verify_signature_exact :
      (byte_length : String → ℕ) (C : IsTimingSafeEqual byte_length) (body secret received : String)
      → (verify_signature R net body secret (sign R net body secret) ≡ ok true)
        × (((verify_signature R net body secret received ≡ ok true)
              × (received ≡ sign R net body secret))
            ⊎ ((verify_signature R net body secret received ≡ ok false)
                × (received ≢ sign R net body secret))
            ⊎ ((byte_length (sign R net body secret) ≢ byte_length received)
                × ((e : Exception) × (verify_signature R net body secret received ≡ throw e))))
  unfolding verify_signature
  verify_signature_exact byte_length C body secret received = (
    ground (arith, C.same_length expected expected),
    elim (ℕ-cases (byte_length expected) (byte_length received)) [
      | inl same ↦ ground (arith, C.same_length expected received same)
      | inr differ ↦ inr (inr (differ, C.other_length expected received differ))
    ],
  )
    where
      expected : String
      expected = sign R net body secret
