-- ===== src/Execution/Slicing/Schedule.antt =====
-- The quantities and the times of the plans of execution/slicing.py.
use native.Mathlib.Nat.{mul-le-mul_left, div-mul-le_self, le-div_iff_mul-le}
use squeeze_hunter.Prelude.{
  ℕ, zero, suc, ◌+◌, ◌-◌, ◌*◌, ◌/◌, ◌≤◌, ◌<◌, ◌≡◌, min, max, List, [], ◌∷◌, All, length, arith,
  Bool-cases, inl, inr, ◌||◌, true, false, refl,
}
use squeeze_hunter.Prelude.Int.{ℤ, pos, negsuc, pos_part, leb_ℤ, ◌≤ℤ◌}
use squeeze_hunter.Prelude.Floats.{Floats}
use squeeze_hunter.Execution.Slicing.{
  seconds, Slice, TwapParams, start, slices_from, build_twap_plan,
}

module _ {F : Type 0} where
  abbrev pub total : List (Slice F) → ℕ
  total [] = 0
  total (s ∷ ss) = s.qty + total ss

pos_part_zero : (a : ℤ) → leb_ℤ a (pos 0) ≡ true → pos_part a ≡ 0
pos_part_zero (pos n) h = ground arith
pos_part_zero (negsuc n) h = refl

pos_part_pos : (a : ℤ) → leb_ℤ a (pos 0) ≡ false → 0 < pos_part a
pos_part_pos (pos n) h = ground arith
pos_part_pos (negsuc n) h = ground arith

more_than_none : (a : ℤ) → ◌≤ℤ◌ (pos 1) a → (leb_ℤ a (pos 0) ≡ false) × (0 < pos_part a)
more_than_none (pos n) h = ground arith
more_than_none (negsuc n) h = ground arith

within_window : (window m i : ℕ) → i ≤ m → seconds (window / m) * i ≤ seconds window
within_window window m i le =
    let steps : window / m * i ≤ window / m * m = mul-le-mul_left (window / m) le in
    let most = div-mul-le_self window m in ground (arith, steps, most)

base_pos : (all n : ℕ) → 0 < n → n ≤ all → 0 < all / n
base_pos all n some_slice enough = (le-div_iff_mul-le some_slice).1 (ground arith)

module _ {F : Type 0} ⦃f : Floats F⦄ where
  slices_from-total :
      (p : TwapParams F) (all n i rest : ℕ)
      → 0 < all / n
      → i + suc rest ≡ n
      → total (slices_from p all n i (suc rest)) ≡ all / n * suc rest + (all - all / n * n)
        × length (slices_from p all n i (suc rest)) ≡ suc rest
        × All (λ s. 0 < s.qty) (slices_from p all n i (suc rest))
  unfolding slices_from
  slices_from-total p all n i zero base e = ground arith
  slices_from-total p all n i (suc rest) base e =
      let (sum, count, each) = slices_from-total p all n (suc i) rest base (omega arith) in
      ground arith

  slices_from_whole :
      (p : TwapParams F) (all n : ℕ)
      → 0 < n
      → n ≤ all
      → (total (slices_from p all n 0 n) ≡ all)
        × (length (slices_from p all n 0 n) ≡ n)
        × All (λ s. 0 < s.qty) (slices_from p all n 0 n)
  slices_from_whole p all zero some_slice enough = elim some_slice [ ]
  slices_from_whole p all (suc n) some_slice enough =
      let (sum, count, each) =
        slices_from-total p all (suc n) 0 n (base_pos all (suc n) some_slice enough)
          (omega arith) in
      let most = div-mul-le_self all (suc n) in (ground arith, count, each)

  abbrev pub InWindow : TwapParams F → Slice F → Type 0
  InWindow p s = (start p ≤ s.submit_at) × (s.submit_at ≤ start p + seconds (p.window_minutes * 60))

  slices_from-InWindow :
      (p : TwapParams F) (all n i rest : ℕ)
      → i + rest ≡ n
      → All (InWindow p) (slices_from p all n i rest)
  unfolding slices_from
  slices_from-InWindow p all n i zero e = tt
  slices_from-InWindow p all n i (suc rest) e =
      let later = slices_from-InWindow p all n (suc i) rest (omega arith) in
      let here = within_window (p.window_minutes * 60) (max (n - 1) 1) i (ground arith) in
      ground (arith, later, here)

  -- Each slice of a plan is submitted in the window, which starts the offset after the open and lasts
  -- the given minutes.
  build_twap_plan-InWindow :
      (p : TwapParams F) (total_qty n_slices : ℤ)
      → All (InWindow p) (build_twap_plan p total_qty n_slices).slices
  unfolding build_twap_plan
  build_twap_plan-InWindow p total_qty n_slices =
      let n = min (pos_part n_slices) (pos_part total_qty) in
      let planned = slices_from-InWindow p (pos_part total_qty) n 0 n (omega arith) in
      elim (Bool-cases (leb_ℤ total_qty (pos 0) || leb_ℤ n_slices (pos 0))) [
        | inl none_due ↦ rw none_due tt
        | inr due ↦ rw due planned
      ]

  -- With at least one slice asked for, the slices of a plan have the total quantity of the order
  -- between them, none is empty, and they are as many as asked for, or one for each share if the
  -- shares are fewer. An order of no shares, or a negative number of them, gives no slice.
  pub build_twap_plan-total :
      (p : TwapParams F) (total_qty n_slices : ℤ)
      → ◌≤ℤ◌ (pos 1) n_slices
      → let slices = (build_twap_plan p total_qty n_slices).slices in
        (total slices ≡ pos_part total_qty)
        × (length slices ≡ min (pos_part n_slices) (pos_part total_qty))
        × All (λ s. 0 < s.qty) slices
  unfolding build_twap_plan
  build_twap_plan-total p total_qty n_slices asked =
      let n = min (pos_part n_slices) (pos_part total_qty) in
      elim (Bool-cases (leb_ℤ total_qty (pos 0))) [
        | inl none_due ↦
            let nothing : pos_part total_qty ≡ 0 = pos_part_zero total_qty none_due in
            rw (none_due, nothing) (ground arith)
        | inr due ↦
            let more = more_than_none n_slices asked in
            let all = pos_part_pos total_qty due in
            let planned =
              slices_from_whole p (pos_part total_qty) n (ground arith) (ground arith) in
            rw (due, more.0) planned
      ]
