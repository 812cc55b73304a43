-- ===== src/Json/TextOrder.antt =====
-- `>` on texts is a strict order: what the comparison of times of update relies on.
use Prim.Native.String.compare
use text.Mathlib.TextPositions.{compare_refl}
use advisor_backend.Common.{String, ◌≡◌, true, false, arith}
use advisor_backend.Json.{text_gt}

pub text_gt_irrefl : (s : String) → text_gt s s ≡ false
unfolding text_gt
text_gt_irrefl s = ground (arith, compare_refl s)

pub text_gt_trans : (r s t : String) → text_gt r s ≡ true → text_gt s t ≡ true → text_gt r t ≡ true
unfolding text_gt
text_gt_trans String.[] String.[] t h k = ground (arith, compare.nil-nil)
text_gt_trans String.[] (String.◌∷◌ d s) t h k = ground (arith, compare.nil-cons d s)
text_gt_trans (String.◌∷◌ c r) String.[] String.[] h k = ground (arith, compare.nil-nil)
text_gt_trans (String.◌∷◌ c r) String.[] (String.◌∷◌ e t) h k = ground (arith, compare.nil-cons e t)
text_gt_trans (String.◌∷◌ c r) (String.◌∷◌ d s) String.[] h k = ground (arith, compare.cons-nil c r)
text_gt_trans (String.◌∷◌ c r) (String.◌∷◌ d s) (String.◌∷◌ e t) h k = ground (
  arith,
  text_gt_trans r s t,
  compare.cons-cons c d r s,
  compare.cons-cons d e s t,
  compare.cons-cons c e r t,
)
