-- ===== src/Webhooks/Refused.antt =====
-- engine/src/queue/webhooks.rs: deliveries to an address whose circuit is open.
use flashq.Prelude.{
  ℕ, ◌+◌, ◌<◌, ◌≡◌, ◌≢◌, ap, ◌∙◌, String, Bool, true, false, some, List, [], ◌∷◌, arith, string_eq,
  ◌==◌, inl, inr, Bool-cases, All, u64_mod,
}
use flashq.Dict
use flashq.Dict.{Dict}
use flashq.Dict.Laws.{get-insert}
use flashq.Circuit.{Entry, open_, new_entry, try_half_open}
use flashq.Circuit.Trips.{open_refuses}
use flashq.Webhooks.{Webhook, wants, ask_circuit, fire_webhooks}

-- The circuit has tripped and its recovery time has not passed.
pub record Tripped (now timeout : ℕ) (c : Entry) : Type 0 where
  pub opened : c.state ≡ open_
  pub fits : c.opened_at + timeout < u64_mod
  pub early : now < c.opened_at + timeout

-- The delivery may start: it is wanted, and goes elsewhere.
abbrev pub Elsewhere : String → String → String → Webhook → Type 0
Elsewhere url event_type queue w = (wants w event_type queue ≡ true) × (w.url ≢ url)

module _ (url event_type queue : String) (now timeout : ℕ) (c : Entry)
    (t : Tripped now timeout c) where
  ask_self :
      (circuits : Dict String Entry) (w : Webhook)
      → Dict.get circuits url ≡ some c
      → w.url ≡ url
      → (Dict.get (ask_circuit circuits w.url now timeout).0 url ≡ some c)
        × ((ask_circuit circuits w.url now timeout).1 ≡ false)
  unfolding ask_circuit
  ask_self circuits w h e =
      let (refused, same) = open_refuses c now timeout t.opened t.fits t.early in
      let entry : Dict.get_or circuits w.url new_entry ≡ c = rw e (ground (arith)) in
      let half : (try_half_open (Dict.get_or circuits w.url new_entry) now timeout).0 ≡ c =
        rw entry (ap (λ (r : Entry × Bool). r.0) same) in
      (
        get-insert circuits w.url url
              (try_half_open (Dict.get_or circuits w.url new_entry) now timeout).0
            ∙ ground (arith, string_eq.test_iff w.url url, half),
        rw half refused,
      )

  ask_other :
      (circuits : Dict String Entry) (w : Webhook)
      → Dict.get circuits url ≡ some c
      → w.url ≢ url
      → Dict.get (ask_circuit circuits w.url now timeout).0 url ≡ some c
  unfolding ask_circuit
  ask_other circuits w h other =
      get-insert circuits w.url url
        (try_half_open (Dict.get_or circuits w.url new_entry) now timeout).0
      ∙ ground (arith, string_eq.test_iff w.url url)

  -- While the circuit of an address is open and its recovery time has not passed, no event is sent to a
  -- webhook of that address, whatever the webhooks are; all that are sent want the event, and the circuit
  -- stays as it is.
  pub open_circuit_silent :
      (ws : List Webhook) (circuits : Dict String Entry)
      → Dict.get circuits url ≡ some c
      → All
          (Elsewhere url event_type queue)
          (fire_webhooks ws circuits event_type queue now timeout).1
        × (Dict.get (fire_webhooks ws circuits event_type queue now timeout).0 url ≡ some c)
  unfolding fire_webhooks
  open_circuit_silent [] circuits h = (tt, h)
  open_circuit_silent (w ∷ ws) circuits h = elim (Bool-cases (wants w event_type queue)) [
    | inr n ↦ rw (n, fire_webhooks) (open_circuit_silent ws circuits h)
    | inl y ↦ elim (Bool-cases (w.url == url)) [
      | inl e ↦
          let (kept, refused) = ask_self circuits w h ((string_eq.test_iff w.url url).0 e) in
          rw (y, fire_webhooks)
            (rw (refused, fire_webhooks)
              (open_circuit_silent ws (ask_circuit circuits w.url now timeout).0 kept))
      | inr e ↦
          let apart : w.url ≢ url = λ p. ground (arith, string_eq.test_iff w.url url) in
          let (sent, kept) =
            open_circuit_silent ws (ask_circuit circuits w.url now timeout).0
              (ask_other circuits w h apart) in
          elim (Bool-cases (ask_circuit circuits w.url now timeout).1) [
            | inl a ↦ rw (y, fire_webhooks) (rw (a, fire_webhooks) (((y, apart), sent), kept))
            | inr a ↦ rw (y, fire_webhooks) (rw (a, fire_webhooks) (sent, kept))
          ]
    ]
  ]
