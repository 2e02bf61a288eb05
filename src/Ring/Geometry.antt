-- ===== src/Ring/Geometry.antt =====
-- The shape of a ring of a power of two slots, and the slot of a sequence number.
use shm_actors.Prelude.{
  ℕ, zero, suc, ◌+◌, ◌-◌, ◌/◌, ◌%◌, ◌^◌, ◌<◌, ◌≡◌, ◌≢◌, true, ◌==◌, ==_iff, Bool-cases, inl, inr,
  arith, bit_and, bit_and-mask, length, ap, ◌∙◌, pow_pos, dec_lt,
}
use native.Mathlib.Nat.{div-add-mod, mul-le-mul_left, mod-lt}
use shm_actors.Ring.{Ring, is_power_below, slot_index}

pub power_of_two : (n x : ℕ) → is_power_below n x ≡ true → (k : ℕ) × (k < n) × (x ≡ 2 ^ k)
unfolding is_power_below
power_of_two zero x h = absurd (cc)
power_of_two (suc n) x h = elim (Bool-cases (x == 2 ^ n)) [
  | inl e ↦ (n, omega arith, (==_iff x (2 ^ n)).0 e)
  | inr ne ↦ let (k, lt, e) = power_of_two n x (ground arith) in (k, omega arith, e)
]

-- Two sequences less than a capacity apart have different slots.
pub mod-ne :
    (capacity s h : ℕ) → 0 < capacity → s < h → h < s + capacity → s % capacity ≢ h % capacity
mod-ne c s h pos lt near e = elim (dec_lt (s / c) (h / c)) [
  | yes p ↦ omega (arith, div-add-mod s c, div-add-mod h c, mul-le-mul_left c p)
  | no p ↦ omega (
    arith,
    div-add-mod s c,
    div-add-mod h c,
    mul-le-mul_left {m = h / c} {n = s / c} c (omega arith),
  )
]

-- The geometry that `init` sets up.
pub record Shape (k : ℕ) (r : Ring) : Type 0 where
  pub power : r.capacity ≡ 2 ^ k
  pub masked : r.mask ≡ r.capacity - 1
  pub allocated : length r.region.slots ≡ r.capacity

pub capacity_pos : {k : ℕ} {r : Ring} → Shape k r → 0 < r.capacity
capacity_pos {k} s = omega (arith, s.power, pow_pos k)

pub slot_index-mod :
    {k : ℕ} {r : Ring} → Shape k r → (seq : ℕ) → slot_index r seq ≡ seq % r.capacity
slot_index-mod {k} {r} s seq =
    ap (bit_and seq) (s.masked ∙ ap (λ c. c - 1) s.power)
    ∙ bit_and-mask k seq
    ∙ ap (λ c. seq % c) (omega (arith, s.power))

pub slot_index-lt :
    {k : ℕ} {r : Ring} → Shape k r → (seq : ℕ) → slot_index r seq < length r.region.slots
slot_index-lt {r = r} s seq =
    omega (arith, slot_index-mod s seq, s.allocated, mod-lt seq (capacity_pos s))
