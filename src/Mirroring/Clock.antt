-- ===== src/Mirroring/Clock.antt =====
-- Durations: time.Since and the time that is left of a retention period.
use kube_image_keeper.Prelude.{if◌then◌else◌}
use kube_image_keeper.Prelude.Int.{ℤ, sub_ℕ, ltb_ℤ, min_int, max_int, sub_int}
use kube_image_keeper.Resources.{Time}

-- A duration is cut off at the ends of its 64 bits.
unfoldable pub saturate : ℤ → ℤ
saturate d = if ltb_ℤ max_int d then max_int else if ltb_ℤ d min_int then min_int else d

-- time.Since
unfoldable pub since : Time → Time → ℤ
unfolding saturate
since now t = saturate (sub_ℕ now t)

-- retentionDuration - time.Since(unusedSince)
unfoldable pub delete_after : ℤ → Time → Time → ℤ
unfolding since sub_int
delete_after retention now unused = sub_int retention (since now unused)
