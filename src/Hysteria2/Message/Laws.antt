-- ===== src/Hysteria2/Message/Laws.antt =====
-- What `Serialize` lays out, `ParseUDPMessage` reads back.
use outbound.Prelude.{length}
use outbound.Prelude.{◌≤◌}
use outbound.Prelude.{◌<◌}
use outbound.Wire.{IsU16, IsU32}
use outbound.Hysteria2.Frag.{UdpMessage}

-- The fields fit their widths, and the address has a length that the protocol carries.
pub record IsMessage (m : UdpMessage) : Type 0 where
  pub session_fits : IsU32 m.session_id
  pub packet_fits : IsU16 m.packet_id
  pub has_addr : 0 < length m.addr
  pub addr_fits : length m.addr ≤ 2048
  pub has_payload : 0 < length m.payload
