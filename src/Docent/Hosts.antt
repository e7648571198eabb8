-- ===== src/Docent/Hosts.antt =====
-- `transport_security_for`: the host policy, as the settings of the MCP SDK.
use Prim.Native.String.{◌++◌}
use funduq_server.Prelude.{String, List, map, member, if◌then◌else◌}
use funduq_server.Prelude as P

-- `TransportSecuritySettings`, as it is made here: with its check turned off, or with the hosts and
-- the origins that it lets through.
pub data TransportSecurity : Type 0 where
  unchecked : TransportSecurity
  only : List String → List String → TransportSecurity

unfoldable pub transport_security_for : List String → TransportSecurity
transport_security_for allowed_hosts =
    if member "*" allowed_hosts
    then unchecked
    else only allowed_hosts (
        P.◌++◌ (map (λ h. "http://" ++ h) allowed_hosts) (map (λ h. "https://" ++ h) allowed_hosts))
