-- ===== src/Webhooks/Tests.antt =====
-- A webhook whose host is public, one whose host is the machine itself, and one of another event.
use revenact_backend.Prelude.{◌≡◌, refl, String, true, false, some, [], ◌∷◌, map, keep_if}
use revenact_backend.Webhooks.{
  Address, value, Network, Webhook, State, responded, send_webhook, notify_created, hears,
}
use revenact_backend.Webhooks.Deliveries.{Sends, send_webhook-Sends}
use revenact_backend.Webhooks.Events.{IsCalm, Delivers, notify_created_lem}

abbrev public_address : Address
public_address = record {
  is_private = false;
  is_loopback = false;
  is_link_local = false;
  is_reserved = false;
  is_multicast = false;
}

abbrev own_address : Address
own_address = record public_address { is_private = true; is_loopback = true }

-- Every URL is of the web, and its host is its text.
abbrev network : Network String
network = record {
  urlparse = λ url. value (record { scheme = "https"; hostname = some url });
  resolve = λ n host. value (public_address ∷ []);
  dumps = λ event payload. value payload;
  sign = λ secret body. secret;
  send = λ n request. responded 204;
}

-- A network in which every name is this machine's.
abbrev inner_network : Network String
inner_network = record network { resolve = λ n host. value (own_address ∷ []) }

abbrev webhook : Webhook
webhook = record {
  id = 1;
  organisation = 7;
  url = "hooks.example";
  event = "customer.created";
  secret = "s";
  is_active = true;
}

abbrev inactive : Webhook
inactive = record webhook { id = 2; is_active = false }

abbrev empty : State
empty = record { deliveries = []; requests = []; lookups = [] }

-- A host of this machine is not asked anything.
inner_test : (send_webhook inner_network webhook "customer.created" "{}" empty).1.requests ≡ []
unfolding send_webhook
inner_test = refl

send_webhook-Sends_example :
    Sends network webhook empty (send_webhook network webhook "customer.created" "{}" empty)
send_webhook-Sends_example = send_webhook-Sends network webhook "customer.created" "{}" empty

network-IsCalm : IsCalm network
network-IsCalm = record {
  parses = λ url. (record { scheme = "https"; hostname = some url }, refl);
  resolves = λ n host e. absurd (cc e);
  dumped = λ event payload. (payload, refl);
}

notify_created_lem_example :
    Delivers
      (map (λ w. w.id) (keep_if (hears 7 "customer.created") (webhook ∷ inactive ∷ [])))
      empty
      (notify_created network true 7 "{}" (webhook ∷ inactive ∷ []) empty)
notify_created_lem_example =
    notify_created_lem network network-IsCalm 7 "{}" (webhook ∷ inactive ∷ []) empty
