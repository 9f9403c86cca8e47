-- ===== src/Mqtt/PacketId.antt =====
-- internal/mqtt/client.go: the packet ids of the client.
use haigosmart.Base.{ℕ, zero, suc, ◌+◌, ◌-◌, ◌%◌, ◌<◌, ◌≡◌, ◌≢◌, arith}
use haigosmart.Mqtt.{next_packet_id}

-- The id that is given out after n more packets.
abbrev pub packet_id_after : ℕ → ℕ → ℕ
packet_id_after zero id = id
packet_id_after (suc n) id = next_packet_id (packet_id_after n id)

lap : (n id : ℕ) → 0 < id → id < 65536 → packet_id_after n id ≡ (id - 1 + n) % 65535 + 1
unfolding next_packet_id
lap zero id lo hi = omega arith
lap (suc n) id lo hi = ground (arith, lap n id lo hi)

-- The ids are 1 to 65535 in turn, never 0, which MQTT forbids: the id that follows n packets after id
-- is n places on, and it comes back only after 65535 packets.
pub packet_id_after_lem :
    (n id : ℕ)
    → 0 < id
    → id < 65536
    → (packet_id_after n id ≡ (id - 1 + n) % 65535 + 1)
      × (0 < packet_id_after n id)
      × (packet_id_after n id < 65536)
      × (0 < n → n < 65535 → packet_id_after n id ≢ id)
packet_id_after_lem n id lo hi =
    let e = lap n id lo hi in (e, omega arith, omega arith, λ some_sent few same. omega arith)
