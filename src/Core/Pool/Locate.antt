-- ===== src/Core/Pool/Locate.antt =====
-- The loop of `locate` finds the class and the slot that a chunk was cut from.
use shm_actors.Prelude.{
  ℕ, zero, suc, ◌+◌, ◌-◌, ◌*◌, ◌^◌, ◌≤◌, ◌<◌, ◌≡◌, refl, sym, subst, some, List, [], ◌∷◌, ok, arith,
  get_elem?, leb, ◌&&◌, le→leb, lt→ltb, le→ltb_false, Bool, true, false,
}
use mathlib.Core.Option.{some-injective, none-ne-some}
use native.Mathlib.Nat.{mul-div_left, mul-mod_left, mul-le-mul_right, mod-eq_of_lt}
use shm_actors.Core.Pool.{ClassHeader, chunk_offset, locate_from}
use shm_actors.Core.Pool.Regions.{Placed, span}

-- The byte of a chunk lies in the class's region.
pub chunk_in_span : (local count size : ℕ) → local < count → local * size + size ≤ count * size
chunk_in_span local count size h =
    omega (arith, mul-le-mul_right {m = suc local} {n = count} size (omega arith))

&&-false : (b : Bool) → (b && false) ≡ false
&&-false true = refl
&&-false false = refl

Placed-le : (cs : List ClassHeader) (low high : ℕ) → Placed low cs high → low ≤ high
Placed-le [] low high h = h
Placed-le (c ∷ cs) low high h = omega (arith, h.0, Placed-le cs (c.data_offset + span c) high h.2)

pub Placed-elem :
    (cs : List ClassHeader) (low high j : ℕ) (c : ClassHeader)
    → Placed low cs high
    → get_elem? cs j ≡ some c
    → (low ≤ c.data_offset) × (c.data_offset + span c ≤ high)
Placed-elem [] low high j c h e = absurd (none-ne-some c e)
Placed-elem (c' ∷ cs) low high zero c h e =
    subst (λ c. (low ≤ c.data_offset) × (c.data_offset + span c ≤ high)) (some-injective _ _ e)
      (h.0, Placed-le cs (c'.data_offset + span c') high h.2)
Placed-elem (c' ∷ cs) low high (suc j) c h e =
    let rest = Placed-elem cs (c'.data_offset + span c') high j c h.2 e in
    (omega (arith, h.0, rest.0), rest.1)

-- What `locate` answers for a chunk of class `k`, found at the head of the loop.
locate_head :
    (c : ClassHeader) (cs : List ClassHeader) (k local : ℕ)
    → local < c.chunk_count
    → c.chunk_count < 2 ^ 32
    → 0 < c.chunk_size
    → locate_from (c ∷ cs) k (chunk_offset c local) ≡ ok (k, local, c.base_index + local)
locate_head c cs k local l n s = rw (
  le→leb c.data_offset (chunk_offset c local) (omega arith),
  lt→ltb (chunk_offset c local) (c.data_offset + c.chunk_count * c.chunk_size)
      (omega (arith, chunk_in_span local c.chunk_count c.chunk_size l)),
  rel,
  mul-mod_left local c.chunk_size,
  mul-div_left local s,
  mod-eq_of_lt {n = local} {m = 2 ^ 32} (omega arith),
)
  where
    rel : chunk_offset c local - c.data_offset ≡ local * c.chunk_size
    rel = omega arith

pub locate_from-chunk :
    (cs : List ClassHeader) (low high k j i local : ℕ) (c : ClassHeader)
    → i ≡ k + j
    → Placed low cs high
    → get_elem? cs j ≡ some c
    → local < c.chunk_count
    → c.chunk_count < 2 ^ 32
    → 0 < c.chunk_size
    → locate_from cs k (chunk_offset c local) ≡ ok (i, local, c.base_index + local)
locate_from-chunk [] low high k j i local c q h e l n s = absurd (none-ne-some c e)
locate_from-chunk (c' ∷ cs) low high k zero i local c q h e l n s =
    subst
      (λ t. locate_from (c' ∷ cs) k (chunk_offset c local) ≡ ok (t, local, c.base_index + local))
      (omega (arith, q))
      (subst
        (λ t. locate_from (t ∷ cs) k (chunk_offset c local) ≡ ok (k, local, c.base_index + local))
        (sym (some-injective _ _ e)) (locate_head c cs k local l n s))
locate_from-chunk (c' ∷ cs) low high k (suc j) i local c q h e l n s =
    rw
      (
        le→ltb_false (chunk_offset c local) (c'.data_offset + c'.chunk_count * c'.chunk_size)
            (omega (arith, (Placed-elem cs (c'.data_offset + span c') high j c h.2 e).0)),
        &&-false (leb c'.data_offset (chunk_offset c local)),
      )
      (locate_from-chunk cs (c'.data_offset + span c') high (suc k) j i local c (omega arith) h.2 e
        l n s)
