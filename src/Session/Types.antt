-- ===== src/Session/Types.antt =====
-- internal/session/session.go: the records. A time.Time is 0 for its zero value and otherwise its
-- UnixNano, which the clock keeps above 0; nil slices and addresses are empty lists.
use vectorcore_twag.Base.{ℕ, Bool}
use vectorcore_twag.Base.Bytes.{Bytes}
use vectorcore_twag.Base.Net.{Ip}
use vectorcore_twag.Base.Text.{Text}

abbrev pub Time : Type 0
Time = ℕ

pub data State : Type 0 where
  pending auth_pending authorized ip_allocated pgw_pending active recovering : State
  terminating terminated failed : State

pub data RecoveryState : Type 0 where
  recovery_none recovery_required recovery_disconnecting recovery_waiting_accounting_stop :
      RecoveryState
  recovery_waiting_reauth recovery_fallback recovery_completed recovery_expired : RecoveryState

pub record Session : Type 0 where
  pub id : Text
  pub imsi : Text
  pub msisdn : Text
  pub mac_address : Text
  pub apn : Text
  pub realm : Text
  pub username : Text
  pub eap_identity : Text
  pub calling_station_id : Text
  pub called_station_id : Text
  pub nas_ip : Text
  pub nas_identifier : Text
  pub acct_session_id : Text
  pub acct_multi_session_id : Text
  pub accounting_active : Bool
  pub accounting_at_risk : Bool
  pub last_accounting_at : Time
  pub acct_input_octets : ℕ
  pub acct_output_octets : ℕ
  pub acct_input_packets : ℕ
  pub acct_output_packets : ℕ
  pub acct_terminate_cause : Text
  pub radius_state : Text
  pub radius_class : Bytes
  pub connect_info : Text
  pub framed_mtu : ℕ
  pub subscriber_ip : Ip
  pub gateway_ip : Ip
  pub access_type : Text
  pub access_interface : Text
  pub pgw_control_ip : Ip
  pub pgw_user_ip : Ip
  pub gtpc_teid : ℕ
  pub local_gtpu_teid : ℕ
  pub remote_gtpu_teid : ℕ
  pub gtpu_error_count : ℕ
  pub last_gtpu_error_at : Time
  pub last_gtpu_error_teid : ℕ
  pub authenticated : Bool
  pub is_authorized : Bool
  pub state : State
  pub created_at : Time
  pub updated_at : Time
  pub expires_at : Time
  pub reason : Text
