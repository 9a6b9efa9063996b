-- ===== src/PacketId/Examples.antt =====
-- The theorems on packet identifiers at concrete ones.
use sky_tree.Common.{ℕ, ◌≤◌, ◌≡◌, ◌≢◌, arith}
use sky_tree.PacketId.{calls}
use sky_tree.PacketId.Cycle.{calls-reaches, calls-distinct}

calls-reaches_example : (n : ℕ) × (1 ≤ n) × (n ≤ 65535) × (calls n 65534 ≡ 3)
calls-reaches_example =
    calls-reaches 65534 3 (omega arith) (omega arith) (omega arith) (omega arith)

calls-distinct_example : (calls 1 9 ≢ calls 65535 9) × (1 ≤ calls 65535 9) × (calls 65535 9 ≤ 65535)
calls-distinct_example =
    calls-distinct 9 1 65535 (omega arith) (omega arith) (omega arith) (omega arith)
