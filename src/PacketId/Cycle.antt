-- ===== src/PacketId/Cycle.antt =====
-- The identifiers go round all of 1 to 65535.
use sky_tree.Common.{ℕ, zero, suc, ◌+◌, ◌-◌, ◌%◌, ◌≤◌, ◌<◌, ◌≡◌, ◌≢◌, ap, ◌∙◌, arith}
use sky_tree.PacketId.{next_packet_id, calls}

next_packet_id-mod : (n : ℕ) → next_packet_id (n % 65535 + 1) ≡ (n + 1) % 65535 + 1
unfolding next_packet_id
next_packet_id-mod n = ground arith

calls-mod : (n id : ℕ) → 1 ≤ id → id ≤ 65535 → calls n id ≡ (id + 65534 + n) % 65535 + 1
unfolding calls
calls-mod zero id low high = omega arith
calls-mod (suc n) id low high =
    ap next_packet_id (calls-mod n id low high) ∙ next_packet_id-mod (id + 65534 + n) ∙ omega arith

-- From any identifier of a factory, each of 1 to 65535 is given out within 65535 calls: no
-- identifier is passed over for ever.
pub calls-reaches :
    (id target : ℕ)
    → 1 ≤ id
    → id ≤ 65535
    → 1 ≤ target
    → target ≤ 65535
    → (n : ℕ) × (1 ≤ n) × (n ≤ 65535) × (calls n id ≡ target)
calls-reaches id target low high low' high' =
    let n : ℕ = (target + 65535 - id - 1) % 65535 + 1 in
    (n, omega arith, omega arith, calls-mod n id low high ∙ omega arith)

-- Of 65535 identifiers that a factory holds one after the other no two are equal, and each is an
-- identifier of MQTT.
pub calls-distinct :
    (id m n : ℕ)
    → 1 ≤ id
    → id ≤ 65535
    → m < n
    → n < m + 65535
    → (calls m id ≢ calls n id) × (1 ≤ calls n id) × (calls n id ≤ 65535)
calls-distinct id m n low high less near =
    let em = calls-mod m id low high in
    let en = calls-mod n id low high in
    (λ e. omega (arith, em, en, e), omega (arith, en), omega (arith, en))
