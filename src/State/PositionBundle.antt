-- ===== src/State/PositionBundle.antt =====
-- programs/elysium/src/state/position_bundle.rs: which of a bundle's 256 positions are open.
pub mod Bitmap
use Prim.Native.Nat.{bit_and, bit_xor}
use elysium_dex.Base.{
  ℕ, ◌*◌, ◌/◌, ◌%◌, ◌^◌, Bool, true, false, not, ◌&&◌, List, [], ◌∷◌, get_elem?, set, replicate,
  ltb, ◌==◌, if◌then◌else◌,
}
use elysium_dex.Errors.{
  Result, ok, fail_if, unwrap, ◌>>=◌, ◌>>◌, invalid_bundle_index, bundled_position_already_opened,
  bundled_position_already_closed,
}

abbrev pub position_bitmap_usize : ℕ
position_bitmap_usize = 32

abbrev pub position_bundle_size : ℕ
position_bundle_size = 8 * position_bitmap_usize

pub record PositionBundle : Type 0 where
  pub position_bundle_mint : ℕ
  pub position_bitmap : List ℕ

-- `PositionBundle::default()`
abbrev pub default_bundle : PositionBundle
default_bundle = record {
  position_bundle_mint = 0;
  position_bitmap = replicate position_bitmap_usize 0;
}

unfoldable pub initialize : PositionBundle → ℕ → PositionBundle
initialize b mint = record b { position_bundle_mint = mint }

unfoldable pub all_zero : List ℕ → Bool
all_zero [] = true
all_zero (bitmap ∷ rest) = let later = all_zero rest in if not (bitmap == 0) then false else later

unfoldable pub is_deletable : PositionBundle → Bool
unfolding all_zero
is_deletable b = all_zero b.position_bitmap

unfoldable pub is_valid_bundle_index : ℕ → Bool
is_valid_bundle_index bundle_index = ltb bundle_index position_bundle_size

unfoldable pub update_bitmap : PositionBundle → ℕ → Bool → Result PositionBundle
unfolding is_valid_bundle_index
update_bitmap b bundle_index open_it = do
  fail_if (not (is_valid_bundle_index bundle_index)) invalid_bundle_index
  let bitmap_index = bundle_index / 8
  bitmap ← unwrap (get_elem? b.position_bitmap bitmap_index)
  let mask = 2 ^ (bundle_index % 8)
  let opened = not (bit_and bitmap mask == 0)
  fail_if (open_it && opened) bundled_position_already_opened
  fail_if (not open_it && not opened) bundled_position_already_closed
  ok (record b { position_bitmap = set b.position_bitmap bitmap_index (bit_xor bitmap mask) })

unfoldable pub open_bundled_position : PositionBundle → ℕ → Result PositionBundle
unfolding update_bitmap
open_bundled_position b bundle_index = update_bitmap b bundle_index true

unfoldable pub close_bundled_position : PositionBundle → ℕ → Result PositionBundle
unfolding update_bitmap
close_bundled_position b bundle_index = update_bitmap b bundle_index false
