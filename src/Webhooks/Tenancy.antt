-- ===== src/Webhooks/Tenancy.antt =====
-- Which rows a call of the webhook service touches.
use multi_tenant_saas_gatewa.Common.{
  ℕ, zero, suc, String, ◌≡◌, ◌↔◌, refl, ap, ◌∙◌, ◌⊎◌, inl, inr, Bool, true, false, ◌&&◌, Option,
  none, some, List, [], ◌∷◌, ◌==◌, arith, Option-cases, filter, In,
}
use multi_tenant_saas_gatewa.Common.Outcome.{ok, Exception}
use multi_tenant_saas_gatewa.Database.{Entity, Repository, IsLawful, IsSavedAs}
use multi_tenant_saas_gatewa.Database.Laws.{Result-cases}
use multi_tenant_saas_gatewa.Webhooks.{
  Webhook, WebhookEvent, Post, Net, State, refusal, attempts, deliver, deliver_all, trigger,
  request, delivered, failed, active_of, subscribes,
}

-- A delivery keeps what decides where later events go, and the limit on attempts.
pub record SameRoute (w e : Entity Webhook) : Type 0 where
  pub same_id : e.id ≡ w.id
  pub same_tenant : e.own.tenant_id ≡ w.own.tenant_id
  pub same_active : e.own.is_active ≡ w.own.is_active
  pub same_events : e.own.events ≡ w.own.events
  pub same_retries : e.own.max_retries ≡ w.own.max_retries

-- The webhooks that an event of a tenant goes to.
unfoldable pub receives : String → WebhookEvent → Entity Webhook → Bool
receives tenant_id event w = (w.own.tenant_id == tenant_id && w.own.is_active) && subscribes event w

receives-SameRoute :
    (tenant_id : String) (event : WebhookEvent) (w e : Entity Webhook)
    → SameRoute w e
    → receives tenant_id event e ≡ receives tenant_id event w
unfolding receives
receives-SameRoute tenant_id event w e same =
    rw (same.same_tenant, same.same_active, same.same_events) refl

route_failed : (w w₀ : Entity Webhook) → SameRoute w₀ w → SameRoute w₀ (failed w)
route_failed w w₀ same = record {
  same_id = same.same_id;
  same_tenant = same.same_tenant;
  same_active = same.same_active;
  same_events = same.same_events;
  same_retries = same.same_retries;
}

route_delivered :
    (now : ℕ) (w w₀ : Entity Webhook) → SameRoute w₀ w → SameRoute w₀ (delivered now w)
route_delivered now w w₀ same = record {
  same_id = same.same_id;
  same_tenant = same.same_tenant;
  same_active = same.same_active;
  same_events = same.same_events;
  same_retries = same.same_retries;
}

route_saved : (e x : Entity Webhook) → IsSavedAs e x → SameRoute e x
route_saved e x saved = record {
  same_id = saved.same_id;
  same_tenant = ap (λ w. w.tenant_id) (saved.same_own);
  same_active = ap (λ w. w.is_active) (saved.same_own);
  same_events = ap (λ w. w.events) (saved.same_own);
  same_retries = ap (λ w. w.max_retries) (saved.same_own);
}

In-filter :
    (p : Entity Webhook → Bool) (ws : List (Entity Webhook)) (w : Entity Webhook)
    → In w (filter p ws)
    → In w ws × (p w ≡ true)
In-filter p [] w h = absurd h
In-filter p (x ∷ ws) w h = ground (arith, In-filter p ws w)

module _ (R : Repository Webhook) (L : IsLawful R) (net : Net) where
  -- A delivery writes the row of its webhook at most once, and keeps its route.
  pub attempts_table :
      (post : Post) (now : ℕ → ℕ) (left attempt : ℕ) (w w₀ : Entity Webhook)
      (last : Option Exception) (s : State R)
      → SameRoute w₀ w
      → ((attempts R net post now left attempt w last s).1.table ≡ s.table)
        ⊎ ((e x : Entity Webhook) × SameRoute w₀ e
            × (R.save e s.table ≡ ok (x, (attempts R net post now left attempt w last s).1.table)))
  unfolding attempts
  attempts_table post now zero attempt w w₀ last s same =
      elim (Result-cases (R.save (failed w) s.table)) [
        | inl (x, broken) ↦ inl (rw broken refl)
        | inr ((e, t), done) ↦ inr (failed w, e, route_failed w w₀ same, ground (arith, done))
      ]
  attempts_table post now (suc left) attempt w w₀ last s same =
      elim (Option-cases (refusal (net.fetch post attempt))) [
        | inr (e, refused) ↦
            rw (refused, attempts)
              (attempts_table post now left (suc attempt) w w₀ (some e)
                (record s { sent = post ∷ s.sent }) same)
        | inl fine ↦ elim (Result-cases (R.save (delivered (now (suc attempt)) w) s.table)) [
          | inl (x, broken) ↦
              rw (fine, broken, attempts)
                (attempts_table post now left (suc attempt) (delivered (now (suc attempt)) w) w₀
                  (some x) (record s { sent = post ∷ s.sent })
                  (route_delivered (now (suc attempt)) w w₀ same))
          | inr ((e, t), done) ↦ inr (
            delivered (now (suc attempt)) w,
            e,
            route_delivered (now (suc attempt)) w w₀ same,
            rw (fine, done, attempts) refl,
          )
        ]
      ]

  module _ (q : Entity Webhook → Bool)
      (keeps : (w e : Entity Webhook) → SameRoute w e → q e ≡ q w) where
    -- The row is there and passes the test.
    Chosen : R.Table → String → Type 0
    Chosen t i = (old : Entity Webhook) × (L.row t i ≡ some old) × (q old ≡ true)

    -- A row that does not pass the test is there before exactly when it is there after, and a chosen
    -- row stays chosen.
    record Spares (t t' : R.Table) : Type 0 where
      others :
          (i : String) (u : Entity Webhook)
          → q u ≡ false
          → (L.row t i ≡ some u) ↔ (L.row t' i ≡ some u)
      chosen : (i : String) → Chosen t i → Chosen t' i

    deliver-Spares :
        (w : Entity Webhook) (event : WebhookEvent) (payload : String) (now : ℕ → ℕ) (s : State R)
        → Chosen s.table w.id
        → q w ≡ true
        → Spares s.table (deliver R net w event payload now s).1.table
    unfolding deliver Chosen
    deliver-Spares w event payload now s (old, row, yes_old) here =
        elim (attempts_table (request R net w event payload (now 0)) now w.own.max_retries 0 w w
          none s
          (record {
            same_id = refl;
            same_tenant = refl;
            same_active = refl;
            same_events = refl;
            same_retries = refl;
          })) [
            | inl kept ↦ record {
              others = λ i u out. rw kept (λ h. h, λ h. h);
              chosen = λ i c. rw kept c;
            }
            | inr (e, x, same, done) ↦
                let (saved, rows, _) = L.save_ok e x old s.table _ (rw (same.same_id) row) done in
                let now_x : q x ≡ true =
                  keeps e x (route_saved e x saved) ∙ keeps w e same ∙ here in
                record {
                  others = λ i u out.
                      ground (arith, rows i, saved.same_id, same.same_id, row, now_x, yes_old, out);
                  chosen = λ i (k, at_k, yes_k).
                      elim (Option-cases (L.row (deliver R net w event payload now s).1.table i)) [
                        | inl gone ↦ absurd (ground (arith, rows i, at_k))
                        | inr (v, at_v) ↦ (v, at_v, ground (arith, rows i, at_k, yes_k, now_x))
                      ];
                }
          ]

    deliver_all-Spares :
        (ws : List (Entity Webhook)) (event : WebhookEvent) (payload : String)
        (now : String → ℕ → ℕ) (s : State R)
        → ((w : Entity Webhook) → In w ws → Chosen s.table w.id × (q w ≡ true))
        → Spares s.table (deliver_all R net ws event payload now s).table
    unfolding deliver_all
    deliver_all-Spares [] event payload now s h = record {
      others = λ i u out. (λ p. p, λ p. p);
      chosen = λ i c. c;
    }
    deliver_all-Spares (w ∷ ws) event payload now s h =
        let first =
          deliver-Spares w event payload (now w.id) s (h w (inl refl)).0 (h w (inl refl)).1 in
        let rest =
          deliver_all-Spares ws event payload now (deliver R net w event payload (now w.id) s).1
            (λ v at. (first.chosen v.id (h v (inr at)).0, (h v (inr at)).1)) in
        record {
          others = λ i u out. (
            λ p. (rest.others i u out).0 ((first.others i u out).0 p),
            λ p. (first.others i u out).1 ((rest.others i u out).1 p),
          );
          chosen = λ i c. rest.chosen i (first.chosen i c);
        }

  -- Whatever the receivers answer and whichever saves fail, an event changes the rows of its
  -- receivers only: a webhook of another tenant, one that is not active and one that does not
  -- subscribe to the event are the same after it as before.
  pub trigger_spares :
      (tenant_id : String) (event : WebhookEvent) (payload : String) (now : String → ℕ → ℕ)
      (s : State R) (i : String) (u : Entity Webhook)
      → receives tenant_id event u ≡ false
      → (L.row s.table i ≡ some u)
        ↔ (L.row (trigger R net tenant_id event payload now s).1.table i ≡ some u)
  unfolding trigger receives Chosen
  trigger_spares tenant_id event payload now s i u out =
      (deliver_all-Spares (receives tenant_id event) (receives-SameRoute tenant_id event)
          (filter (subscribes event) (R.find (active_of R net tenant_id) s.table)) event payload now
          s
          (λ w at.
            let (found, listens) =
              In-filter (subscribes event) (R.find (active_of R net tenant_id) s.table) w at in
            let (row, active) = L.find_sound (active_of R net tenant_id) s.table w found in
            ((w, row, ground arith), ground arith))).others
        i u out
