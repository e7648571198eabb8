-- ===== src/AgentSdk.antt =====
-- souk-agent-sdk/souk_agent_sdk/client.py: the provider's end of its socket. `Handshake` is the
-- ticket and the two frames, `Queries` the questions asked and not yet answered, `Offers` the
-- answer to a run, and `Connection` the loop over the frames. `Presenter` is a2a_client.py's proof.
pub mod Handshake
pub mod Queries
pub mod Offers
pub mod Connection
pub mod Presenter
pub mod A2aClient
pub mod KyokAuth
