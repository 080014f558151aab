-- ===== src/Webhooks/Retries.antt =====
-- How many requests a delivery sends.
use multi_tenant_saas_gatewa.Common.{
  ℕ, zero, suc, ◌≤◌, String, ◌≡◌, refl, inl, inr, Option, none, some, ◌∷◌, arith, Option-cases,
}
use multi_tenant_saas_gatewa.Common.Outcome.{Exception}
use multi_tenant_saas_gatewa.Database.{Entity, Repository}
use multi_tenant_saas_gatewa.Database.Laws.{Result-cases}
use multi_tenant_saas_gatewa.Webhooks.{
  Webhook, WebhookEvent, Post, Net, State, refusal, attempts, deliver, request, delivered, failed,
  give_up,
}
use multi_tenant_saas_gatewa.Webhooks.Delivery.{posted}

module _ (R : Repository Webhook) (net : Net) where
  give_up-sent :
      (w : Entity Webhook) (last : Option Exception) (s : State R)
      → (give_up R w last s).1.sent ≡ s.sent
  give_up-sent w none s = elim (Result-cases (R.save (failed w) s.table)) [
    | inl (e, lost) ↦ rw (lost, give_up) refl
    | inr (saved, done) ↦ rw (done, give_up) refl
  ]
  give_up-sent w (some x) s = elim (Result-cases (R.save (failed w) s.table)) [
    | inl (e, lost) ↦ rw (lost, give_up) refl
    | inr (saved, done) ↦ rw (done, give_up) refl
  ]

  attempts_bounded :
      (post : Post) (now : ℕ → ℕ) (left attempt : ℕ) (w : Entity Webhook) (last : Option Exception)
      (s : State R)
      → (n : ℕ) × (n ≤ left)
        × ((attempts R net post now left attempt w last s).1.sent ≡ posted n post s.sent)
  unfolding attempts posted
  attempts_bounded post now zero attempt w last s = (0, omega arith, give_up-sent w last s)
  attempts_bounded post now (suc left) attempt w last s =
      elim (Option-cases (refusal (net.fetch post attempt))) [
        | inr (e, refused) ↦
            let (n, few, sent) =
              attempts_bounded post now left (suc attempt) w (some e)
                (record s { sent = post ∷ s.sent }) in
            (suc n, omega (arith, few), rw (refused, attempts) sent)
        | inl fine ↦ elim (Result-cases (R.save (delivered (now (suc attempt)) w) s.table)) [
          | inl (e, lost) ↦
              let (n, few, sent) =
                attempts_bounded post now left (suc attempt) (delivered (now (suc attempt)) w)
                  (some e) (record s { sent = post ∷ s.sent }) in
              (suc n, omega (arith, few), rw (fine, lost, attempts) sent)
          | inr (saved, done) ↦ (1, omega arith, rw (fine, done, attempts) refl)
        ]
      ]

  -- Whatever the receiver answers and whichever saves fail, a delivery ends after at most as many
  -- requests as the row's limit on attempts, all of them the same, and sends nothing else.
  pub deliver_bounded :
      (w : Entity Webhook) (event : WebhookEvent) (payload : String) (now : ℕ → ℕ) (s : State R)
      → (n : ℕ) × (n ≤ w.own.max_retries)
        × ((deliver R net w event payload now s).1.sent
            ≡ posted n (request R net w event payload (now 0)) s.sent)
  unfolding deliver
  deliver_bounded w event payload now s =
      attempts_bounded (request R net w event payload (now 0)) now w.own.max_retries 0 w none s
