-- ===== src/Webhooks.antt =====
-- engine/src/queue/webhooks.rs: webhooks, the check of their addresses, and which deliveries an event
-- starts. Parsing a URL and an IP address, lower case of Unicode texts and the request itself are not
-- this program's: the first three are parameters, and a delivery is reported by its outcome.
pub mod Address
pub mod Private
pub mod Refused
use flashq.Prelude.{
  ℕ, zero, suc, ◌+◌, ◌*◌, ◌/◌, ◌%◌, String, Bool, true, false, not, ◌||◌, ◌&&◌, Option, none, some,
  List, [], ◌∷◌, ◌++◌, map, length, drop, ltb, leb, nat_beq, contains, codes, string_eq, ◌==◌,
  if◌then◌else◌,
}
use flashq.Dict
use flashq.Dict.{Dict}
use flashq.Webhooks.Address.{Ip, Url, validate_webhook_url}
use flashq.Circuit
use flashq.Circuit.{Entry, new_entry, should_allow, try_half_open, record_success, record_failure}
use flashq.Result.{
  Result, ok, err, invalid_url, bad_scheme, no_host, localhost_url, private_ip, internal_url,
}

pub record Webhook : Type 0 where
  pub id : String
  pub url : String
  pub events : List String
  pub queue : Option String
  pub secret : Option String
  pub created_at : ℕ

-- The webhooks by id and the circuits by URL.
pub record Hooks : Type 0 where
  pub webhooks : Dict String Webhook
  pub circuits : Dict String Entry

module _ (parse_url : String → Option Url) (parse_ip : List ℕ → Option Ip)
    (to_lowercase : List ℕ → List ℕ) where
  -- `id` is `wh_` and the next of the ids that webhooks take.
  unfoldable pub add_webhook :
      Hooks
      → String
      → String
      → List String
      → Option String
      → Option String
      → ℕ
      → Hooks × Result String
  unfolding validate_webhook_url
  add_webhook h id url events queue secret now =
      elim (validate_webhook_url parse_url parse_ip to_lowercase url) [
        | err e ↦ (h, err e)
        | ok _ ↦ (
          record h {
            webhooks = Dict.insert h.webhooks id (record {
              id = id;
              url = url;
              events = events;
              queue = queue;
              secret = secret;
              created_at = now;
            });
          },
          ok id,
        )
      ]

unfoldable pub delete_webhook : Hooks → String → Hooks × Bool
delete_webhook h id = elim (Dict.get h.webhooks id) [
  | none ↦ (h, false)
  | some webhook ↦ (
    record h {
      webhooks = Dict.remove h.webhooks id;
      circuits = Dict.remove h.circuits webhook.url;
    },
    true,
  )
]

-- The webhook wants this event of this queue.
unfoldable pub wants : Webhook → String → String → Bool
wants webhook event_type queue =
    (contains webhook.events event_type || contains webhook.events "*")
    && elim webhook.queue [ none ↦ true | some wq ↦ wq == queue ]

-- The circuit of a URL, asked for a delivery: the circuits then, and whether it is let through.
unfoldable pub ask_circuit : Dict String Entry → String → ℕ → ℕ → Dict String Entry × Bool
ask_circuit circuits url now recovery_timeout =
    let circuit = (try_half_open (Dict.get_or circuits url new_entry) now recovery_timeout).0 in
    (Dict.insert circuits url circuit, should_allow circuit now recovery_timeout)

-- The webhooks that an event is sent to.
unfoldable pub fire_webhooks :
    List Webhook → Dict String Entry → String → String → ℕ → ℕ → Dict String Entry × List Webhook
unfolding wants ask_circuit
fire_webhooks [] circuits event_type queue now recovery_timeout = (circuits, [])
fire_webhooks (w ∷ ws) circuits event_type queue now recovery_timeout =
    let wanted = wants w event_type queue in
    let (asked, allowed) = ask_circuit circuits w.url now recovery_timeout in
    let (circuits', sent) =
      fire_webhooks ws (if wanted then asked else circuits) event_type queue now recovery_timeout in
    (circuits', if wanted && allowed then w ∷ sent else sent)

-- The end of a delivery: the circuit of its URL, if it is still there, learns the outcome.
unfoldable pub delivered : Hooks → String → Bool → ℕ → ℕ → Hooks
delivered h url success now threshold = elim (Dict.get h.circuits url) [
  | none ↦ h
  | some circuit ↦ record h {
    circuits =
        Dict.insert h.circuits url
          (if success then record_success circuit else record_failure circuit now threshold);
  }
]

-- background/cleanup.rs: circuits of no webhook go.
unfoldable pub cleanup_webhook_circuits : Hooks → Hooks
cleanup_webhook_circuits h = record h {
  circuits =
      Dict.retain (λ url _. contains (map (λ (w : Webhook). w.url) (Dict.values h.webhooks)) url)
        h.circuits;
}
