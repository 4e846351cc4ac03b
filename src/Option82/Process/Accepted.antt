-- ===== src/Option82/Process/Accepted.antt =====
-- dhcp_relay_validate_agent_option on the option that add_option82 has written.
use ops_ipapps.Base.{ℕ, ◌≡◌, Bool, true, false, ◌==◌, if◌then◌else◌}
use ops_ipapps.Global.{Option82RemoteId, remote_id_ip}
use ops_ipapps.Ifaddrs.{ip_exists_on_interface}
use ops_ipapps.Agent.{Validation, option_82_ok, option_82_mismatch, Option82Info}
use ops_ipapps.Option82.{Call}

-- The address that is written for the kind IP: the gateway if there is one, or else that of
-- *pkt_info.
abbrev pub written_address : Call → Option82Info → ℕ
written_address c info = if c.bootp_gw == 0 then info.ip_addr else c.bootp_gw

-- Whether the remote id is one of the interface's.
abbrev pub is_own : Call → Option82Info → Option82RemoteId → Bool
is_own c info remote_id_ip = ip_exists_on_interface c.host c.if_name (written_address c info)
is_own c info _ = true

-- A verdict on an option with a circuit id.
abbrev pub IsVerdict : Bool → ℕ → Option82Info → Validation × Option82Info → Type 0
IsVerdict true circuit info (v, info') = (v ≡ option_82_ok) × (info'.circuit_id ≡ circuit)
IsVerdict false circuit info (v, info') = (v ≡ option_82_mismatch) × (info' ≡ info)
