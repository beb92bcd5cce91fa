-- ===== src/Webhooks/Events.antt =====
-- The deliveries of an event.
use revenact_backend.Prelude.{
  ◌≡◌, ◌≢◌, refl, ◌∙◌, ap, inl, inr, ℕ, String, Bool, true, false, Option, none, some, List, [],
  ◌∷◌, ◌++◌, map, keep_if, Bool-cases,
}
use revenact_backend.Webhooks.{
  Address, Parsed, Called, value, caught, uncaught, Network, Webhook, Delivery, State, Outcome,
  returned, escaped, all_public, Validated, safe, unsafe, raised, is_web, host_of, check_addresses,
  check_host, check_scheme, check_parsed, validate_webhook_url, look_up, count, post, send_checked,
  send_webhook, then_send, send_all, hears, notify_created,
}
use revenact_backend.Webhooks.Deliveries.{Sends, send_webhook-Sends}

-- No library raises an exception that the code does not catch.
pub record IsCalm {Payload : Type 0} (network : Network Payload) : Type 0 where
  pub parses : (url : String) → (p : Parsed) × (network.urlparse url ≡ value p)
  pub resolves : (n : ℕ) (host : String) → network.resolve n host ≢ uncaught
  pub dumped :
      (event : String) (payload : Payload) → (b : String) × (network.dumps event payload ≡ value b)

is_raised : Validated → Bool
is_raised raised = true
is_raised _ = false

calm_answer : (answer : Called (List Address)) → answer ≢ uncaught → check_addresses answer ≢ raised
unfolding check_addresses
calm_answer (value addresses) h e = elim (Bool-cases (all_public addresses)) [
  | inl p ↦ absurd (cc (rw p at e))
  | inr p ↦ absurd (cc (rw p at e))
]
calm_answer caught h e = absurd (cc e)
calm_answer uncaught h e = h refl

abbrev pub senders : State → List ℕ
senders s = map (λ d. d.webhook) s.deliveries

-- The webhooks that a run of sends delivers for.
abbrev pub Delivers : List ℕ → State → Outcome × State → Type 0
Delivers ids before (returned, after) = senders after ≡ senders before ++ ids
Delivers ids before (escaped, after) = ⊥

module _ {Payload : Type 0} (network : Network Payload) (calm : IsCalm network) where
  calm_host : (host : Option String) (s : State) → (check_host network host s).0 ≢ raised
  unfolding check_host look_up
  calm_host none s e = absurd (cc e)
  calm_host (some host) s e =
      calm_answer (network.resolve (count s.lookups) host) (calm.resolves (count s.lookups) host) e

  calm_scheme :
      (b : Bool) (host : Option String) (s : State) → (check_scheme network b host s).0 ≢ raised
  unfolding check_scheme
  calm_scheme true host s e = calm_host (host_of host) s e
  calm_scheme false host s e = absurd (cc e)

  calm_url : (url : String) (s : State) → (validate_webhook_url network url s).0 ≢ raised
  unfolding validate_webhook_url check_parsed
  calm_url url s e =
      let (p, q) = calm.parses url in calm_scheme (is_web p.scheme) p.hostname s (rw q at e)

  calm_checked :
      (webhook : Webhook) (event : String) (payload : Payload) (checked : Validated × State)
      → checked.0 ≢ raised
      → (send_checked network webhook event payload checked).0 ≡ returned
  unfolding send_checked post
  calm_checked webhook event payload (safe, s) h = rw (calm.dumped event payload).1 refl
  calm_checked webhook event payload (unsafe why, s) h = refl
  calm_checked webhook event payload (raised, s) h = absurd (h refl)

  send_webhook_returns :
      (webhook : Webhook) (event : String) (payload : Payload) (s : State)
      → (send_webhook network webhook event payload s).0 ≡ returned
  unfolding send_webhook
  send_webhook_returns webhook event payload s =
      calm_checked webhook event payload (validate_webhook_url network webhook.url s)
        (calm_url webhook.url s)

  map_append :
      (ds es : List Delivery)
      → map (λ d. d.webhook) (ds ++ es) ≡ map (λ d. d.webhook) ds ++ map (λ d. d.webhook) es
  map_append [] es = refl
  map_append (d ∷ ds) es = ap (λ l. d.webhook ∷ l) (map_append ds es)

  append_assoc : (xs ys zs : List ℕ) → (xs ++ ys) ++ zs ≡ xs ++ (ys ++ zs)
  append_assoc [] ys zs = refl
  append_assoc (x ∷ xs) ys zs = ap (λ l. x ∷ l) (append_assoc xs ys zs)

  one_sent :
      (webhook : Webhook) (before : State) (sent : Outcome × State)
      → sent.0 ≡ returned
      → Sends network webhook before sent
      → Delivers (webhook.id ∷ []) before sent
  unfolding Sends
  one_sent webhook before (returned, after) e (d, p, q, r) =
      rw (p, map_append before.deliveries (d ∷ []), q) refl
  one_sent webhook before (escaped, after) e h = absurd (cc e)

  then_sent :
      (id : ℕ) (ids : List ℕ) (before : State) (rest : State → Outcome × State)
      (sent : Outcome × State)
      → Delivers (id ∷ []) before sent
      → ((s : State) → Delivers ids s (rest s))
      → Delivers (id ∷ ids) before (then_send network rest sent)
  unfolding then_send
  then_sent id ids before rest (returned, s) h k = after_both (rest s) (k s)
    where
      after_both : (sent : Outcome × State) → Delivers ids s sent → Delivers (id ∷ ids) before sent
      after_both (returned, after) l =
          l ∙ ap (λ ms. ms ++ ids) h ∙ append_assoc (senders before) (id ∷ []) ids
      after_both (escaped, after) l = absurd l
  then_sent id ids before rest (escaped, s) h k = absurd h

  append_none : (xs : List ℕ) → xs ≡ xs ++ []
  append_none [] = refl
  append_none (x ∷ xs) = ap (λ l. x ∷ l) (append_none xs)

  send_all-Delivers :
      (ws : List Webhook) (event : String) (payload : Payload) (s : State)
      → Delivers (map (λ w. w.id) ws) s (send_all network ws event payload s)
  unfolding send_all
  send_all-Delivers [] event payload s = append_none (senders s)
  send_all-Delivers (w ∷ ws) event payload s =
      then_sent w.id (map (λ w'. w'.id) ws) s (send_all network ws event payload)
        (send_webhook network w event payload s)
        (one_sent w s (send_webhook network w event payload s)
          (send_webhook_returns w event payload s) (send_webhook-Sends network w event payload s))
        (send_all-Delivers ws event payload)

  -- Where no library raises what the code does not catch, the notification of a new organisation returns,
  -- whatever DNS and the receivers answer, and has recorded one delivery, sent or not, for every active
  -- webhook of its workspace for that event, in their order, and none for another one.
  pub notify_created_lem :
      (organisation : ℕ) (payload : Payload) (webhooks : List Webhook) (s : State)
      → Delivers
          (map (λ w. w.id) (keep_if (hears organisation "customer.created") webhooks))
          s
          (notify_created network true organisation payload webhooks s)
  unfolding notify_created
  notify_created_lem organisation payload webhooks s =
      send_all-Delivers (keep_if (hears organisation "customer.created") webhooks)
        "customer.created" payload s
