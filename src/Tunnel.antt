-- ===== src/Tunnel.antt =====
-- core/tunnel: what the gateway and the endpoint of a tunnel share (TunnelBase.h, I2NPProtocol.h).
pub mod Endpoint
pub mod Gateway
pub mod Headers
pub mod Layout
pub mod Receiver
pub mod Fragments
pub mod Sending
pub mod First
pub mod RoundTrip
pub mod Lost
pub mod Safety
pub mod Total
mod Tests
use i2pd.Prelude.{ℕ, ◌*◌, ◌+◌, List}

abbrev pub tunnel_data_msg_size : ℕ
tunnel_data_msg_size = 1028

abbrev pub tunnel_data_max_payload_size : ℕ
tunnel_data_max_payload_size = 1003

abbrev pub i2np_max_message_size : ℕ
i2np_max_message_size = 32768

abbrev pub i2np_max_short_message_size : ℕ
i2np_max_short_message_size = 4096

-- `TunnelDeliveryType`; two bits of a flag can also spell a fourth value, which no member names.
pub data DeliveryType : Type 0 where
  to_local to_tunnel to_router to_unknown : DeliveryType

abbrev pub delivery_code : DeliveryType → ℕ
delivery_code to_local = 0
delivery_code to_tunnel = 1
delivery_code to_router = 2
delivery_code to_unknown = 3
