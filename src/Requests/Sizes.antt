-- ===== src/Requests/Sizes.antt =====
-- The size to which the suite expands a volume.
use csi_test.Prelude.{ℕ, ◌+◌, ◌-◌, ◌^◌, ◌<◌, false, ◌≡◌, arith, ltb, if◌then◌else◌}
use csi_test.Prelude.Int.{pos, negsuc, ltb_ℤ, add64_pos}
use csi_test.Config.{TestContext}
use csi_test.Requests.{test_volume_size, test_volume_expand_size}

-- Without a configured expansion size, the suite asks for 1 GiB more than the volume size if that
-- fits an int64; otherwise the sum wraps around, to the negative number 2^64 below it.
pub test_volume_expand_size-eq :
    (sc : TestContext) (n : ℕ)
    → sc.config.test_volume_size ≡ pos n
    → n < 2 ^ 63
    → ltb_ℤ (pos 0) sc.config.test_volume_expand_size ≡ false
    → test_volume_expand_size sc ≡ (
        if ltb (n + 1073741824) (2 ^ 63)
        then pos (n + 1073741824)
        else negsuc (2 ^ 64 - 1 - (n + 1073741824)))
unfolding test_volume_expand_size test_volume_size
test_volume_expand_size-eq sc n size bound none_set =
    ground (arith, size, none_set, add64_pos n 1073741824 bound (omega arith))
