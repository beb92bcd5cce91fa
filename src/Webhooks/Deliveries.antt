-- ===== src/Webhooks/Deliveries.antt =====
-- What a delivery leaves behind, and what all those of an event do.
use revenact_backend.Prelude.{
  ◌≡◌, refl, ◌⊎◌, inl, inr, String, Bool, true, false, Option, none, some, List, [], ◌∷◌, ◌++◌,
  Bool-cases,
}
use revenact_backend.Webhooks.{
  Address, Parsed, Called, value, caught, uncaught, Network, Webhook, Delivery, Request, State,
  Outcome, returned, escaped, Reply, responded, http_error, failed, count, all_public, Validated,
  safe, unsafe, raised, is_web, host_of, check_addresses, check_host, check_scheme, check_parsed,
  validate_webhook_url, look_up, deliver, delivery_of, refusal, request_of, post, send_checked,
  send_webhook,
}

append_same : {A : Type 0} (x : A) {xs ys : List A} → xs ≡ ys → xs ++ (x ∷ []) ≡ ys ++ (x ∷ [])
append_same x e = rw e refl

module _ {Payload : Type 0} (network : Network Payload) where
  -- The URL is of the web and names a host, whose addresses were all found public by a lookup since.
  pub record IsVetted (url : String) (before after : List (String × Called (List Address)))
      : Type 0 where
    pub parsed : Parsed
    pub host : String
    pub addresses : List Address
    pub reads : network.urlparse url ≡ value parsed
    pub web : is_web parsed.scheme ≡ true
    pub named : host_of parsed.hostname ≡ some host
    pub looked_up : after ≡ (host, value addresses) ∷ before
    pub public : all_public addresses ≡ true

  -- What a check leaves as it was.
  pub record IsQuiet (before after : State) : Type 0 where
    pub deliveries : after.deliveries ≡ before.deliveries
    pub requests : after.requests ≡ before.requests

  abbrev Checks : String → State → Validated × State → Type 0
  Checks url before (safe, after) = IsQuiet before after × IsVetted url before.lookups after.lookups
  Checks url before (_, after) = IsQuiet before after

  still : (s : State) → IsQuiet s s
  still s = record { deliveries = refl; requests = refl }

  check_addresses-Checks :
      (url host : String) (p : Parsed) (s after : State) (answer : Called (List Address))
      → network.urlparse url ≡ value p
      → is_web p.scheme ≡ true
      → host_of p.hostname ≡ some host
      → IsQuiet s after
      → after.lookups ≡ (host, answer) ∷ s.lookups
      → Checks url s (check_addresses answer, after)
  unfolding check_addresses
  check_addresses-Checks url host p s after (value addresses) e w n quiet l =
      elim (Bool-cases (all_public addresses)) [
        | inr q ↦ rw q quiet
        | inl q ↦ rw q (
          quiet,
          record {
            parsed = p;
            host = host;
            addresses = addresses;
            reads = e;
            web = w;
            named = n;
            looked_up = l;
            public = q;
          },
        )
      ]
  check_addresses-Checks url host p s after caught e w n quiet l = quiet
  check_addresses-Checks url host p s after uncaught e w n quiet l = quiet

  check_host-Checks :
      (url : String) (p : Parsed) (host : Option String) (s : State)
      → network.urlparse url ≡ value p
      → is_web p.scheme ≡ true
      → host_of p.hostname ≡ host
      → Checks url s (check_host network host s)
  unfolding check_host look_up
  check_host-Checks url p none s e w n = still s
  check_host-Checks url p (some host) s e w n =
      check_addresses-Checks url host p s (look_up network host s).1 (look_up network host s).0 e w
        n (record { deliveries = refl; requests = refl }) refl

  check_scheme-Checks :
      (url : String) (p : Parsed) (b : Bool) (s : State)
      → network.urlparse url ≡ value p
      → is_web p.scheme ≡ b
      → Checks url s (check_scheme network b p.hostname s)
  unfolding check_scheme
  check_scheme-Checks url p true s e w = check_host-Checks url p (host_of p.hostname) s e w refl
  check_scheme-Checks url p false s e w = still s

  check_parsed-Checks :
      (url : String) (called : Called Parsed) (s : State)
      → network.urlparse url ≡ called
      → Checks url s (check_parsed network called s)
  unfolding check_parsed
  check_parsed-Checks url (value p) s e = check_scheme-Checks url p (is_web p.scheme) s e refl
  check_parsed-Checks url caught s e = still s
  check_parsed-Checks url uncaught s e = still s

  pub validate_webhook_url-Checks :
      (url : String) (s : State) → Checks url s (validate_webhook_url network url s)
  unfolding validate_webhook_url
  validate_webhook_url-Checks url s = check_parsed-Checks url (network.urlparse url) s refl

  -- How a send ends: it returns with one more delivery of the webhook, and either has made no request or
  -- one to its URL, which was vetted; or it lets an exception through and leaves no trace.
  unfoldable pub Sends : Webhook → State → Outcome × State → Type 0
  Sends webhook before (returned, after) =
      (d : Delivery) × (after.deliveries ≡ before.deliveries ++ (d ∷ []))
      × (d.webhook ≡ webhook.id)
      × ((after.requests ≡ before.requests)
          ⊎ ((r : Request) × (after.requests ≡ before.requests ++ (r ∷ []))
              × (r.url ≡ webhook.url)
              × IsVetted webhook.url before.lookups after.lookups))
  Sends webhook before (escaped, after) = IsQuiet before after

  delivery_webhook :
      (webhook : Webhook) (reply : Reply) → (delivery_of network webhook reply).webhook ≡ webhook.id
  unfolding delivery_of
  delivery_webhook webhook (responded status) = refl
  delivery_webhook webhook (http_error code reason) = refl
  delivery_webhook webhook (failed text) = refl

  post-Sends :
      (webhook : Webhook) (body : Called String) (before s : State)
      → IsQuiet before s
      → IsVetted webhook.url before.lookups s.lookups
      → Sends webhook before (post network webhook body s)
  unfolding post Sends deliver request_of
  post-Sends webhook (value body) before s quiet vetted = (
    delivery_of network webhook (network.send (count s.requests) (request_of network webhook body)),
    append_same _ quiet.deliveries,
    delivery_webhook webhook (network.send (count s.requests) (request_of network webhook body)),
    inr (request_of network webhook body, append_same _ quiet.requests, refl, vetted),
  )
  post-Sends webhook caught before s quiet vetted = quiet
  post-Sends webhook uncaught before s quiet vetted = quiet

  send_checked-Sends :
      (webhook : Webhook) (event : String) (payload : Payload) (before : State)
      (checked : Validated × State)
      → Checks webhook.url before checked
      → Sends webhook before (send_checked network webhook event payload checked)
  unfolding send_checked
  send_checked-Sends webhook event payload before (safe, s) h =
      post-Sends webhook (network.dumps event payload) before s h.0 h.1
  send_checked-Sends webhook event payload before (unsafe why, s) h =
      unfold Sends deliver refusal in
      (refusal network webhook why, append_same _ h.deliveries, refl, inl h.requests)
  send_checked-Sends webhook event payload before (raised, s) h = unfold Sends in h

  -- Whatever the URL of a webhook is and whatever DNS and the network answer, a send returns with one
  -- more delivery, the webhook's, and has made at most one request, to the webhook's URL, where the scheme
  -- is of the web and the lookup just before found no address of the host that is private or internal;
  -- or an exception of urlparse, of the lookup or of json.dumps escapes it, and it has sent and
  -- recorded nothing.
  pub send_webhook-Sends :
      (webhook : Webhook) (event : String) (payload : Payload) (s : State)
      → Sends webhook s (send_webhook network webhook event payload s)
  unfolding send_webhook
  send_webhook-Sends webhook event payload s =
      send_checked-Sends webhook event payload s (validate_webhook_url network webhook.url s)
        (validate_webhook_url-Checks webhook.url s)
