-- ===== src/Examples/Bundles.antt =====
-- A bundle in which one position is opened.
use elysium_dex.Base.{ℕ, ◌<◌, ◌≤◌, ◌≡◌, ◌↔◌, ◌⊎◌, refl, arith, true, false}
use elysium_dex.Errors.{ok, err, ◌>>=◌, invalid_bundle_index}
use elysium_dex.State.PositionBundle.{
  default_bundle, position_bundle_size, update_bitmap, open_bundled_position,
  close_bundled_position, is_deletable,
}
use elysium_dex.State.PositionBundle.Bitmap.{
  IsBundle, Updates, is_open, update_bitmap-Sets, is_deletable_iff, get_elem?-replicate,
}

default-IsBundle : IsBundle default_bundle
default-IsBundle = record {
  size = refl;
  bytes = λ i x e. grind (arith, get_elem?-replicate 32 i 0 e);
}

open_then_close :
    (open_bundled_position default_bundle 17 >>= λ b. close_bundled_position b 17)
    ≡ ok default_bundle
unfolding open_bundled_position close_bundled_position
open_then_close = refl

update_bitmap-Sets_example :
    ((position_bundle_size ≤ 17)
      × (update_bitmap default_bundle 17 true ≡ err invalid_bundle_index))
    ⊎ Updates default_bundle 17 true
update_bitmap-Sets_example = update_bitmap-Sets default_bundle 17 true default-IsBundle

is_deletable_iff_example :
    (is_deletable default_bundle ≡ true)
    ↔ ((i : ℕ) → i < position_bundle_size → is_open default_bundle i ≡ false)
is_deletable_iff_example = is_deletable_iff default_bundle default-IsBundle
