-- ===== src/Wire/Ticket.antt =====
-- A ticket, from the gateway's answer to the provider and to the bridge.
use funduq_server.Prelude.{String, false, ◌≡◌, refl, none, ◌==◌}
use funduq_server.Json.{str}
use funduq_server.ApiRegistry.{Registry, issue_ticket}
use funduq_server.AgentSdk.Handshake.{go, fetch_ticket}
use funduq_server.KyokBridge.Handshake as Bridge

module _ {S : Type 0} (core : Registry S) (s s' : S) (public_key ticket : String)
    (issued : core.issue_ticket s public_key ≡ (ticket, s')) where
  -- Without a pin, both sides open with the ticket and the key that the gateway gave out, if the two
  -- are not empty.
  pub fetch_ticket-issue_ticket :
      (ticket == "") ≡ false
      → (core.identity_public_key == "") ≡ false
      → (fetch_ticket none (issue_ticket core s public_key).0
          ≡ go (ticket, core.identity_public_key))
        × (Bridge.fetch_ticket none (issue_ticket core s public_key).0
            ≡ Bridge.go (str ticket, str core.identity_public_key))
  unfolding fetch_ticket Bridge.fetch_ticket issue_ticket
  fetch_ticket-issue_ticket given named = (rw (issued, given, named) refl, rw issued refl)
