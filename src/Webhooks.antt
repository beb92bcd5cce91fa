-- ===== src/Webhooks.antt =====
-- services/webhooks/engine.py and signals.py: the check of a URL, a delivery, and the deliveries of an
-- event.
pub mod Deliveries
mod Events
mod Tests
use revenact_backend.Prelude.{
  ℕ, String, Bool, true, false, not, ◌&&◌, ◌||◌, Option, none, some, List, [], ◌∷◌, ◌++◌, keep_if,
  str_eq, ◌+◌, ◌==◌, leb, ltb, if◌then◌else◌, prefix,
}

-- What `ipaddress` says of an address.
pub record Address : Type 0 where
  pub is_private : Bool
  pub is_loopback : Bool
  pub is_link_local : Bool
  pub is_reserved : Bool
  pub is_multicast : Bool

-- What `urlparse` reads of a URL.
pub record Parsed : Type 0 where
  pub scheme : String
  pub hostname : Option String

-- How a call of a library ends: with a value, with the exception that the code catches there, or with
-- another one.
pub data Called (A : Type 0) : Type 0 where
  value : A → Called A
  caught : Called A
  uncaught : Called A

-- How a request ends: with a status, with an HTTPError, or with another exception, with their texts.
pub data Reply : Type 0 where
  responded : ℕ → Reply
  http_error : ℕ → String → Reply
  failed : String → Reply

-- `urllib.request.Request`, with its URL, its body and its signature.
pub record Request : Type 0 where
  pub url : String
  pub body : String
  pub signature : String

-- What the code takes from libraries: `urlparse`, of whose exceptions it catches none, `getaddrinfo` with
-- `ip_address` of every answer, of whose exceptions it catches gaierror, `json.dumps`, of whose it
-- catches none, the HMAC, and the opener, which follows no redirect. DNS may answer differently at
-- every call, so the lookups and the replies are given by how many there were before.
pub record Network (Payload : Type 0) : Type 0 where
  pub urlparse : String → Called Parsed
  pub resolve : ℕ → String → Called (List Address)
  pub dumps : String → Payload → Called String
  pub sign : String → String → String
  pub send : ℕ → Request → Reply

-- `WebhookSubscription`
pub record Webhook : Type 0 where
  pub id : ℕ
  pub organisation : ℕ
  pub url : String
  pub event : String
  pub secret : String
  pub is_active : Bool

-- `WebhookDelivery`
pub record Delivery : Type 0 where
  pub webhook : ℕ
  pub success : Bool
  pub status_code : Option ℕ
  pub error : String

-- The deliveries and the requests that were sent, newest last, and the lookups that were made, newest
-- first, with what they answered.
pub record State : Type 0 where
  pub deliveries : List Delivery
  pub requests : List Request
  pub lookups : List (String × Called (List Address))

pub data Outcome : Type 0 where
  returned escaped : Outcome

unfoldable pub count : {A : Type 0} → List A → ℕ
count [] = 0
count (x ∷ xs) = 1 + count xs

unfoldable pub is_internal : Address → Bool
is_internal a = a.is_private || a.is_loopback || a.is_link_local || a.is_reserved || a.is_multicast

-- None of the addresses is private or internal.
unfoldable pub all_public : List Address → Bool
unfolding is_internal
all_public [] = true
all_public (a ∷ rest) = not (is_internal a) && all_public rest

-- `UnsafeWebhookURLError`, by its message.
pub data Unsafe : Type 0 where
  bad_scheme no_host not_resolved internal_address : Unsafe

unfoldable pub message : Unsafe → String
message bad_scheme = "Only http:// and https:// URLs are allowed."
message no_host = "That URL has no host."
message not_resolved = "That host name couldn't be resolved."
message internal_address =
    "That URL resolves to a private or internal address, which isn't allowed."

-- How the check of a URL ends.
pub data Validated : Type 0 where
  safe : Validated
  unsafe : Unsafe → Validated
  raised : Validated

unfoldable pub check_addresses : Called (List Address) → Validated
unfolding all_public
check_addresses (value addresses) = if all_public addresses then safe else unsafe internal_address
check_addresses caught = unsafe not_resolved
check_addresses uncaught = raised

unfoldable pub is_web : String → Bool
is_web scheme = str_eq scheme "http" || str_eq scheme "https"

-- `parsed.hostname`, where it is not empty.
unfoldable pub host_of : Option String → Option String
host_of none = none
host_of (some host) = if str_eq host "" then none else some host

module _ {Payload : Type 0} (network : Network Payload) where
  unfoldable pub look_up : String → State → Called (List Address) × State
  unfolding count
  look_up host s =
      let answer = network.resolve (count s.lookups) host in
      (answer, record s { lookups = (host, answer) ∷ s.lookups })

  unfoldable pub check_host : Option String → State → Validated × State
  unfolding look_up check_addresses
  check_host none s = (unsafe no_host, s)
  check_host (some host) s = let (answer, after) = look_up host s in (check_addresses answer, after)

  unfoldable pub check_scheme : Bool → Option String → State → Validated × State
  unfolding check_host host_of
  check_scheme true hostname s = check_host (host_of hostname) s
  check_scheme false hostname s = (unsafe bad_scheme, s)

  unfoldable pub check_parsed : Called Parsed → State → Validated × State
  unfolding check_scheme is_web
  check_parsed (value p) s = check_scheme (is_web p.scheme) p.hostname s
  check_parsed caught s = (raised, s)
  check_parsed uncaught s = (raised, s)

  -- `validate_webhook_url`
  unfoldable pub validate_webhook_url : String → State → Validated × State
  unfolding check_parsed
  validate_webhook_url url s = check_parsed (network.urlparse url) s

  unfoldable pub deliver : Delivery → State → State
  deliver d s = record s { deliveries = s.deliveries ++ (d ∷ []) }

  unfoldable pub is_success : ℕ → Bool
  is_success status = leb 200 status && ltb status 300

  unfoldable pub delivery_of : Webhook → Reply → Delivery
  unfolding is_success
  delivery_of webhook (responded status) = record {
    webhook = webhook.id;
    success = is_success status;
    status_code = some status;
    error = "";
  }
  delivery_of webhook (http_error code reason) = record {
    webhook = webhook.id;
    success = false;
    status_code = some code;
    error = prefix 255 reason;
  }
  delivery_of webhook (failed text) = record {
    webhook = webhook.id;
    success = false;
    status_code = none;
    error = prefix 255 text;
  }

  unfoldable pub refusal : Webhook → Unsafe → Delivery
  unfolding message
  refusal webhook why = record {
    webhook = webhook.id;
    success = false;
    status_code = none;
    error = prefix 255 (message why);
  }

  unfoldable pub request_of : Webhook → String → Request
  request_of webhook body = record {
    url = webhook.url;
    body = body;
    signature = network.sign webhook.secret body;
  }

  unfoldable pub post : Webhook → Called String → State → Outcome × State
  unfolding deliver delivery_of request_of count
  post webhook (value body) s =
      let request = request_of webhook body in
      let reply = network.send (count s.requests) request in
      (
        returned,
        deliver (delivery_of webhook reply) (record s { requests = s.requests ++ (request ∷ []) }),
      )
  post webhook _ s = (escaped, s)

  unfoldable pub send_checked : Webhook → String → Payload → Validated × State → Outcome × State
  unfolding post deliver refusal
  send_checked webhook event payload (safe, s) = post webhook (network.dumps event payload) s
  send_checked webhook event payload (unsafe why, s) = (returned, deliver (refusal webhook why) s)
  send_checked webhook event payload (raised, s) = (escaped, s)

  -- `send_webhook`
  unfoldable pub send_webhook : Webhook → String → Payload → State → Outcome × State
  unfolding send_checked validate_webhook_url
  send_webhook webhook event payload s =
      send_checked webhook event payload (validate_webhook_url webhook.url s)

  unfoldable pub then_send : (State → Outcome × State) → Outcome × State → Outcome × State
  then_send rest (returned, s) = rest s
  then_send rest (escaped, s) = (escaped, s)

  -- `_send_all`
  unfoldable pub send_all : List Webhook → String → Payload → State → Outcome × State
  unfolding send_webhook then_send
  send_all [] event payload s = (returned, s)
  send_all (w ∷ ws) event payload s =
      then_send (send_all ws event payload) (send_webhook w event payload s)

-- The webhooks that hear of an event of an organisation.
unfoldable pub hears : ℕ → String → Webhook → Bool
hears organisation event w = w.organisation == organisation && str_eq w.event event && w.is_active

-- `notify_customer_created_webhooks`, once the transaction is committed.
unfoldable pub notify_created :
    {Payload : Type 0}
    → Network Payload
    → Bool
    → ℕ
    → Payload
    → List Webhook
    → State
    → Outcome × State
unfolding send_all hears
notify_created network false organisation payload webhooks s = (returned, s)
notify_created network true organisation payload webhooks s =
    send_all network (keep_if (hears organisation "customer.created") webhooks) "customer.created"
      payload s
