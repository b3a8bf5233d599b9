-- ===== src/Util/SwapTickSequence/Termination.antt =====
-- The search over the tick arrays always ends.
use elysium_dex.Base.{
  ℕ, zero, suc, ◌+◌, ◌≤◌, ◌<◌, ◌≡◌, refl, arith, Bool, Option, none, some, [], ◌∷◌, length,
  get_elem?, Option-cases, inl, inr,
}
use elysium_dex.Base.Int.{ℤ}
use elysium_dex.Errors.{Result, ok, err, panic, tick_array_sequence_invalid_index}
use elysium_dex.State.TickArray.{TickArray, get_next_init_tick_index}
use elysium_dex.Util.SwapTickSequence.{
  SwapTickSequence, ArrayEnd, answer, resume, array_end, search_arrays,
  get_next_initialized_tick_index,
}

-- A result, if there is one, names an array of the sequence from a first one on.
abbrev pub InSequence : SwapTickSequence → ℕ → Result (ℕ × ℤ) → Type 0
InSequence arrays first r = (j : ℕ) (t : ℤ) → r ≡ ok (j, t) → (first ≤ j) × (j < length arrays)

abbrev Ends : SwapTickSequence → ℕ → Option (Result (ℕ × ℤ)) → Type 0
Ends arrays first o = (r : Result (ℕ × ℤ)) × (o ≡ some r) × InSequence arrays first r

get_elem?-bound :
    (arrays : SwapTickSequence) (i : ℕ) (a : TickArray)
    → get_elem? arrays i ≡ some a
    → i < length arrays
get_elem?-bound [] i a e = grind arith
get_elem?-bound (x ∷ xs) zero a e = omega arith
get_elem?-bound (x ∷ xs) (suc i) a e = omega (arith, get_elem?-bound xs i a e)

-- The answer of a round is the index of its own array.
answer-Ends :
    (arrays : SwapTickSequence) (i : ℕ) (t : ℤ)
    → i < length arrays
    → Ends arrays i (some (ok (i, t)))
answer-Ends arrays i t h = (_, refl, λ j t' e. (grind arith, grind arith))

later-Ends :
    (arrays : SwapTickSequence) (i : ℕ) (o : Option (Result (ℕ × ℤ)))
    → Ends arrays (i + 1) o
    → Ends arrays i o
later-Ends arrays i o (r, e, f) = (r, e, λ j t p. let (low, high) = f j t p in (omega arith, high))

-- One round, for what the array's search and its end give; `next` is about the later rounds.
round-Ends :
    (fuel : ℕ) (arrays : SwapTickSequence) (t : ℤ) (sp : ℕ) (a_to_b : Bool) (i : ℕ) (a : TickArray)
    (next : (t' : ℤ) → Ends arrays (i + 1) (search_arrays fuel arrays t' sp a_to_b (i + 1)))
    → get_elem? arrays i ≡ some a
    → (r : Result (Option ℤ)) → get_next_init_tick_index a t sp a_to_b ≡ r
    → (x : ArrayEnd) → array_end arrays a i sp a_to_b ≡ x
    → Ends arrays i (search_arrays (suc fuel) arrays t sp a_to_b i)
unfolding search_arrays
round-Ends fuel arrays t sp a_to_b i a next e (err code) p x q =
    (err code, rw (search_arrays, e, p) refl, λ j t' w. cc)
round-Ends fuel arrays t sp a_to_b i a next e panic p x q =
    (panic, rw (search_arrays, e, p) refl, λ j t' w. cc)
round-Ends fuel arrays t sp a_to_b i a next e (ok (some t')) p x q =
    let (r, eq, f) = answer-Ends arrays i t' (get_elem?-bound arrays i a e) in
    (r, rw (search_arrays, e, p) eq, f)
round-Ends fuel arrays t sp a_to_b i a next e (ok none) p (answer t') q =
    let (r, eq, f) = answer-Ends arrays i t' (get_elem?-bound arrays i a e) in
    (r, rw (search_arrays, e, p) (rw q eq), f)
round-Ends fuel arrays t sp a_to_b i a next e (ok none) p (resume t') q =
    let (r, eq, f) = later-Ends arrays i _ (next t') in (r, rw (search_arrays, e, p) (rw q eq), f)

no_array :
    (fuel : ℕ) (arrays : SwapTickSequence) (t : ℤ) (sp : ℕ) (a_to_b : Bool) (i : ℕ)
    → get_elem? arrays i ≡ none
    → Ends arrays i (search_arrays (suc fuel) arrays t sp a_to_b i)
unfolding search_arrays
no_array fuel arrays t sp a_to_b i e =
    (err tick_array_sequence_invalid_index, rw (search_arrays, e) refl, λ j t' w. cc)

search-Ends :
    (fuel : ℕ) (arrays : SwapTickSequence) (t : ℤ) (sp : ℕ) (a_to_b : Bool) (i : ℕ)
    → length arrays ≤ i + fuel
    → Ends arrays i (search_arrays (suc fuel) arrays t sp a_to_b i)
search-Ends zero arrays t sp a_to_b i h = elim (Option-cases (get_elem? arrays i)) [
  | inl e ↦ no_array 0 arrays t sp a_to_b i e
  | inr (a, e) ↦ absurd (omega (arith, get_elem?-bound arrays i a e))
]
search-Ends (suc fuel) arrays t sp a_to_b i h = elim (Option-cases (get_elem? arrays i)) [
  | inl e ↦ no_array (suc fuel) arrays t sp a_to_b i e
  | inr (a, e) ↦
      round-Ends (suc fuel) arrays t sp a_to_b i a
        (λ t'. search-Ends fuel arrays t' sp a_to_b (i + 1) (omega arith)) e _ refl _ refl
]

-- The loop ends within the rounds that it is given, and an index that it returns belongs to an
-- array of the sequence at or after the first one searched.
pub get_next_initialized_tick_index-InSequence :
    (arrays : SwapTickSequence) (t : ℤ) (sp : ℕ) (a_to_b : Bool) (first : ℕ)
    → (search_arrays (suc (length arrays)) arrays t sp a_to_b first
        ≡ some (get_next_initialized_tick_index arrays t sp a_to_b first))
      × InSequence arrays first (get_next_initialized_tick_index arrays t sp a_to_b first)
unfolding get_next_initialized_tick_index
get_next_initialized_tick_index-InSequence arrays t sp a_to_b first =
    let (r, e, f) = search-Ends (length arrays) arrays t sp a_to_b first (omega arith) in
    rw e (refl, f)
