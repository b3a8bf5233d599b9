-- ===== src/State/PositionBundle/Bitmap.antt =====
-- The bitmap as a set of open positions.
use Prim.Native.Nat.{bit_and, bit_xor}
use native.Mathlib.Decide.{ℕ_discrete}
use elysium_dex.Base.{
  ℕ, zero, suc, ◌+◌, ◌*◌, ◌/◌, ◌%◌, ◌^◌, ◌<◌, ◌≤◌, ◌≡◌, ◌∙◌, sym, ap, subst, refl, Bool, true,
  false, not, ◌&&◌, ◌||◌, none, some, List, [], ◌∷◌, ◌↔◌, ◌⊎◌, inl, inr, arith, Bool-cases, length,
  get_elem?, replicate, set, get_elem?-some, get_elem?-set_self, get_elem?-set_ne, length-set, ltb,
  ltb→lt, lt→ltb, ◌==◌, if◌then◌else◌,
}
use elysium_dex.Errors.{
  ok, err, invalid_bundle_index, bundled_position_already_opened, bundled_position_already_closed,
}
use elysium_dex.State.PositionBundle.{
  PositionBundle, position_bitmap_usize, position_bundle_size, update_bitmap, is_deletable,
  all_zero, is_valid_bundle_index,
}

pub record IsBundle (b : PositionBundle) : Type 0 where
  pub size : length b.position_bitmap ≡ position_bitmap_usize
  pub bytes : (i x : ℕ) → get_elem? b.position_bitmap i ≡ some x → x < 256

abbrev pub test_bit : ℕ → ℕ → Bool
test_bit x k = not (bit_and x (2 ^ k) == 0)

-- Whether the position with an index is open.
abbrev pub is_open : PositionBundle → ℕ → Bool
is_open b i = elim (get_elem? b.position_bitmap (i / 8)) [
  | none ↦ false
  | some x ↦ test_bit x (i % 8)
]

-- A test of `count` numbers in a row.
all_from : ℕ → ℕ → (ℕ → Bool) → Bool
all_from first zero test = true
all_from first (suc count) test = if test first then all_from (first + 1) count test else false

from_sound :
    (first count : ℕ) (test : ℕ → Bool) (j : ℕ)
    → first ≤ j
    → j < first + count
    → all_from first count test ≡ true
    → test j ≡ true
unfolding all_from
from_sound first zero test j above below e = absurd (omega arith)
from_sound first (suc count) test j above below e = elim (ℕ_discrete first j) [
  | yes here ↦ subst (λ i. test i ≡ true) here (ground arith)
  | no later ↦ from_sound (first + 1) count test j (omega arith) (omega arith) (ground arith)
]

all_below : ℕ → (ℕ → Bool) → Bool
unfolding all_from
all_below count test = all_from 0 count test

below_sound :
    (count : ℕ) (test : ℕ → Bool) (j : ℕ) → all_below count test ≡ true → j < count → test j ≡ true
unfolding all_below
below_sound count test j e below = from_sound 0 count test j (omega arith) (omega arith) e

abbrev same_bool : Bool → Bool → Bool
same_bool true b = b
same_bool false b = not b

same_bool-eq : (a b : Bool) → same_bool a b ≡ true → a ≡ b
same_bool-eq true true h = refl
same_bool-eq true false h = cc
same_bool-eq false true h = cc
same_bool-eq false false h = refl

-- What flipping the bit `k` of a byte does, checked for every byte and bit.
abbrev flips : ℕ → ℕ → ℕ → Bool
flips x k j =
    ltb (bit_xor x (2 ^ k)) 256
    && same_bool (test_bit (bit_xor x (2 ^ k)) j)
        (if j == k then not (test_bit x j) else test_bit x j)

flip_table : all_below 256 (λ x. all_below 8 (λ k. all_below 8 (λ j. flips x k j))) ≡ true
unfolding all_below
flip_table = refl

flips_lem : (x k j : ℕ) → x < 256 → k < 8 → j < 8 → flips x k j ≡ true
flips_lem x k j hx hk hj =
    below_sound 8 _ j (below_sound 8 _ k (below_sound 256 _ x flip_table hx) hk) hj

flip_bit :
    (x k j : ℕ)
    → x < 256
    → k < 8
    → j < 8
    → test_bit (bit_xor x (2 ^ k)) j ≡ (if j == k then not (test_bit x j) else test_bit x j)
flip_bit x k j hx hk hj = same_bool-eq _ _ (and_right _ _ (flips_lem x k j hx hk hj))
  where
    and_right : (a b : Bool) → (a && b) ≡ true → b ≡ true
    and_right a b h = ground arith

flip-lt : (x k : ℕ) → x < 256 → k < 8 → bit_xor x (2 ^ k) < 256
flip-lt x k hx hk = ltb→lt _ _ (and_left _ _ (flips_lem x k 0 hx hk (omega arith)))
  where
    and_left : (a b : Bool) → (a && b) ≡ true → a ≡ true
    and_left a b h = ground arith

-- The bundle after a call: a bundle again, in which only the position `i` has changed.
abbrev pub Sets : PositionBundle → ℕ → Bool → PositionBundle → Type 0
Sets b i open_it b' =
    IsBundle b' × ((j : ℕ) → is_open b' j ≡ (if j == i then open_it else is_open b j))

abbrev flipped : PositionBundle → ℕ → ℕ → PositionBundle
flipped b i x = record b {
  position_bitmap = set b.position_bitmap (i / 8) (bit_xor x (2 ^ (i % 8)));
}

flipped-IsBundle :
    (b : PositionBundle) (i x : ℕ)
    → IsBundle b
    → i < position_bundle_size
    → get_elem? b.position_bitmap (i / 8) ≡ some x
    → IsBundle (flipped b i x)
flipped-IsBundle b i x h lt e = record {
  size = length-set b.position_bitmap (i / 8) _ ∙ h.size;
  bytes = λ j y g. elim (ℕ_discrete (i / 8) j) [
    | yes p ↦ grind (
      arith,
      get_elem?-set_self b.position_bitmap (i / 8) (bit_xor x (2 ^ (i % 8))),
      flip-lt x (i % 8) (h.bytes (i / 8) x e) (omega arith),
      h.size,
    )
    | no ne ↦ h.bytes j y (sym (get_elem?-set_ne b.position_bitmap (i / 8) j _ ne) ∙ g)
  ];
}

is_open-some :
    (b : PositionBundle) (i x : ℕ)
    → get_elem? b.position_bitmap (i / 8) ≡ some x
    → is_open b i ≡ test_bit x (i % 8)
is_open-some b i x e = rw (is_open, e) refl

same_byte : (i j : ℕ) → i / 8 ≡ j / 8 → (j % 8 == i % 8) ≡ (j == i)
same_byte i j p = ground arith

flipped-is_open_same :
    (b : PositionBundle) (i x j : ℕ)
    → IsBundle b
    → i < position_bundle_size
    → get_elem? b.position_bitmap (i / 8) ≡ some x
    → i / 8 ≡ j / 8
    → is_open (flipped b i x) j ≡ (if j == i then not (is_open b i) else is_open b j)
flipped-is_open_same b i x j h lt e p =
    let y = bit_xor x (2 ^ (i % 8)) in
    let g = get_elem?-set_self b.position_bitmap (i / 8) y (omega (arith, h.size)) in
    is_open-some (flipped b i x) j y (rw (sym p) g)
    ∙ flip_bit x (i % 8) (j % 8) (h.bytes (i / 8) x e) (omega arith) (omega arith)
    ∙ rw (is_open-some b i x e, is_open-some b j x (rw (sym p) e), same_byte i j p)
        (if_same (ℕ_discrete j i))
  where
    if_same :
        Dec (j ≡ i)
        → (if j == i then not (test_bit x (j % 8)) else test_bit x (j % 8))
          ≡ (if j == i then not (test_bit x (i % 8)) else test_bit x (j % 8))
    if_same (yes q) = rw q refl
    if_same (no ne) = grind arith

flipped-is_open :
    (b : PositionBundle) (i x j : ℕ)
    → IsBundle b
    → i < position_bundle_size
    → get_elem? b.position_bitmap (i / 8) ≡ some x
    → is_open (flipped b i x) j ≡ (if j == i then not (is_open b i) else is_open b j)
flipped-is_open b i x j h lt e = elim (ℕ_discrete (i / 8) (j / 8)) [
  | yes p ↦ flipped-is_open_same b i x j h lt e p
  | no ne ↦
      ap (λ o. elim o [ none ↦ false | some y ↦ test_bit y (j % 8) ])
        (get_elem?-set_ne b.position_bitmap (i / 8) (j / 8) _ ne)
      ∙ if_false _ _ (j == i) (ground arith)
]
  where
    if_false : (p q c : Bool) → c ≡ false → q ≡ (if c then p else q)
    if_false p q c h = ground arith

-- What `update_bitmap` answers for an index of the bundle.
abbrev pub Updates : PositionBundle → ℕ → Bool → Type 0
Updates b i open_it =
    ((i < position_bundle_size)
      × (is_open b i ≡ open_it)
      × (update_bitmap b i open_it
          ≡ err (
              if open_it
              then bundled_position_already_opened
              else bundled_position_already_closed)))
    ⊎ ((i < position_bundle_size)
        × (is_open b i ≡ not open_it)
        × ((b' : PositionBundle) × (update_bitmap b i open_it ≡ ok b') × Sets b i open_it b'))

in_bundle :
    (b : PositionBundle) (i x : ℕ) (open_it : Bool)
    → IsBundle b
    → i < position_bundle_size
    → get_elem? b.position_bitmap (i / 8) ≡ some x
    → Updates b i open_it
unfolding update_bitmap
in_bundle b i x open_it h lt e = by_bit open_it (Bool-cases (test_bit x (i % 8)))
  where
    p : ltb i 256 ≡ true
    p = lt→ltb i 256 lt

    not_not : (w : Bool) → not (not w) ≡ w
    not_not w = ground arith

    s : (w : Bool) → is_open b i ≡ not w → Sets b i w (flipped b i x)
    s w q = (
      flipped-IsBundle b i x h lt e,
      λ j.
          flipped-is_open b i x j h lt e
          ∙ ap (λ t. if j == i then not t else is_open b j) q
          ∙ rw (not_not w) refl,
    )

    by_bit : (w : Bool) → (test_bit x (i % 8) ≡ true) ⊎ (test_bit x (i % 8) ≡ false) → Updates b i w
    by_bit true (inl q) =
        inl (lt, is_open-some b i x e ∙ q, rw (update_bitmap, is_valid_bundle_index, p, e, q) refl)
    by_bit true (inr q) = inr (
      lt,
      is_open-some b i x e ∙ q,
      (
        _,
        rw (update_bitmap, is_valid_bundle_index, p, e, q) refl,
        s true (is_open-some b i x e ∙ q),
      ),
    )
    by_bit false (inl q) = inr (
      lt,
      is_open-some b i x e ∙ q,
      (
        _,
        rw (update_bitmap, is_valid_bundle_index, p, e, q) refl,
        s false (is_open-some b i x e ∙ q),
      ),
    )
    by_bit false (inr q) =
        inl (lt, is_open-some b i x e ∙ q, rw (update_bitmap, is_valid_bundle_index, p, e, q) refl)

-- `update_bitmap` on every branch, for a bundle of 32 bytes: an index past the bundle and a
-- position that is already as wanted are refused, each with its own error; otherwise the position
-- is set and no other changes.
pub update_bitmap-Sets :
    (b : PositionBundle) (i : ℕ) (open_it : Bool)
    → IsBundle b
    → ((position_bundle_size ≤ i) × (update_bitmap b i open_it ≡ err invalid_bundle_index))
      ⊎ Updates b i open_it
unfolding update_bitmap
update_bitmap-Sets b i open_it h = elim (Bool-cases (ltb i 256)) [
  | inl p ↦
      let (x, e) =
        get_elem?-some b.position_bitmap (i / 8) (omega (arith, h.size, ltb→lt i 256 p)) in
      inr (in_bundle b i x open_it h (ltb→lt i 256 p) e)
  | inr p ↦ inl (not_lt i p, rw (update_bitmap, is_valid_bundle_index, p) refl)
]
  where
    not_lt : (n : ℕ) → ltb n 256 ≡ false → 256 ≤ n
    not_lt n q = ground arith

pub get_elem?-replicate : (n j a : ℕ) {x : ℕ} → get_elem? (replicate n a) j ≡ some x → x ≡ a
get_elem?-replicate zero j a e = grind arith
get_elem?-replicate (suc n) zero a e = grind arith
get_elem?-replicate (suc n) (suc j) a e = get_elem?-replicate n j a e

get_elem?-lt : (xs : List ℕ) (j x : ℕ) → get_elem? xs j ≡ some x → j < length xs
get_elem?-lt [] j x e = grind arith
get_elem?-lt (y ∷ ys) zero x e = omega arith
get_elem?-lt (y ∷ ys) (suc j) x e = omega (arith, get_elem?-lt ys j x e)

all_zero-below : (xs : List ℕ) (j x : ℕ) → all_zero xs ≡ true → get_elem? xs j ≡ some x → x ≡ 0
unfolding all_zero
all_zero-below [] j x h e = grind arith
all_zero-below (y ∷ ys) zero x h e = grind arith
all_zero-below (y ∷ ys) (suc j) x h e = all_zero-below ys j x (ground arith) e

all_zero-of_bytes :
    (xs : List ℕ) → ((j x : ℕ) → get_elem? xs j ≡ some x → x ≡ 0) → all_zero xs ≡ true
unfolding all_zero
all_zero-of_bytes [] h = refl
all_zero-of_bytes (y ∷ ys) h = rw (h 0 y refl, all_zero-of_bytes ys (λ j x e. h (suc j) x e)) refl

some_bit : ℕ → ℕ → Bool
some_bit zero x = x == 0
some_bit (suc n) x = test_bit x n || some_bit n x

no_bits_table : all_below 8 (λ k. not (test_bit 0 k)) ≡ true
unfolding all_below
no_bits_table = refl

some_bit_table : all_below 256 (λ x. some_bit 8 x) ≡ true
unfolding all_below some_bit
some_bit_table = refl

no_bit : (k : ℕ) → k < 8 → test_bit 0 k ≡ false
no_bit k lt = not_true _ (below_sound 8 _ k no_bits_table lt)
  where
    not_true : (c : Bool) → not c ≡ true → c ≡ false
    not_true c q = ground arith

some_bit-false : (n x : ℕ) → some_bit n x ≡ true → ((k : ℕ) → k < n → test_bit x k ≡ false) → x ≡ 0
unfolding some_bit
some_bit-false zero x h f = ground arith
some_bit-false (suc n) x h f =
    some_bit-false n x (rw' (f n (omega arith)) h) (λ k lt. f k (omega arith))
  where
    rw' : {a b : Bool} → a ≡ false → (a || b) ≡ true → b ≡ true
    rw' {a} {b} p q = grind arith

-- A bundle of 32 bytes may be deleted exactly when none of its 256 positions is open.
pub is_deletable_iff :
    (b : PositionBundle)
    → IsBundle b
    → (is_deletable b ≡ true) ↔ ((i : ℕ) → i < position_bundle_size → is_open b i ≡ false)
unfolding is_deletable
is_deletable_iff b h = (forward, backward)
  where
    forward :
        all_zero b.position_bitmap ≡ true → (i : ℕ) → i < position_bundle_size → is_open b i ≡ false
    forward z i lt =
        let (x, e) = get_elem?-some b.position_bitmap (i / 8) (omega (arith, h.size)) in
        is_open-some b i x e
        ∙ rw (all_zero-below b.position_bitmap (i / 8) x z e) (no_bit (i % 8) (omega arith))

    closed_bit :
        ((i : ℕ) → i < position_bundle_size → is_open b i ≡ false)
        → (j x k : ℕ) → get_elem? b.position_bitmap j ≡ some x
        → k < 8
        → test_bit x k ≡ false
    closed_bit f j x k e lt =
        let q : (8 * j + k) / 8 ≡ j = omega arith in
        let r : (8 * j + k) % 8 ≡ k = omega arith in
        let bound = get_elem?-lt b.position_bitmap j x e in
        ap (λ t. test_bit x t) (sym r)
        ∙ sym (is_open-some b (8 * j + k) x (ap (λ t. get_elem? b.position_bitmap t) q ∙ e))
        ∙ f (8 * j + k) (omega (arith, h.size, bound))

    backward :
        ((i : ℕ) → i < position_bundle_size → is_open b i ≡ false)
        → all_zero b.position_bitmap ≡ true
    backward f = all_zero-of_bytes b.position_bitmap (λ j x e.
        some_bit-false 8 x (below_sound 256 _ x some_bit_table (h.bytes j x e))
          (λ k lt. closed_bit f j x k e lt))
