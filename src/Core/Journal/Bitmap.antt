-- ===== src/Core/Journal/Bitmap.antt =====
-- Bits of the journal's bitmap by the index of their slot.
use shm_actors.Prelude.{
  ℕ, zero, suc, ◌+◌, ◌*◌, ◌/◌, ◌%◌, ◌<◌, ◌≡◌, ◌≢◌, refl, sym, ap, ◌∙◌, subst, Bool, true, false,
  none, some, List, [], ◌∷◌, arith, length, get_or, set, length-set, get_or-set_self, get_or-set_ne,
  ℕ_discrete, Option-cases, inl, inr,
}
use mathlib.Core.Path.{ap₂}
use mathlib.Core.Option.{some-injective, none-ne-some}
use shm_actors.Core.Journal.{bit_at, shifted, first_clear}

-- Every word has 64 bits.
abbrev pub Shaped : List (List Bool) → Type 0
Shaped [] = Unit {0}
Shaped (word ∷ rest) = (length word ≡ 64) × Shaped rest

pub Shaped-elem :
    (bm : List (List Bool)) (w : ℕ) → Shaped bm → w < length bm → length (get_or bm w []) ≡ 64
Shaped-elem [] w s h = absurd (omega arith)
Shaped-elem (x ∷ bm) zero s h = s.0
Shaped-elem (x ∷ bm) (suc w) s h = Shaped-elem bm w s.1 (omega arith)

pub Shaped-set :
    (bm : List (List Bool)) (w : ℕ) (word : List Bool)
    → Shaped bm
    → length word ≡ 64
    → Shaped (set bm w word)
Shaped-set [] w word s h = s
Shaped-set (x ∷ bm) zero word s h = (h, s.1)
Shaped-set (x ∷ bm) (suc w) word s h = (s.0, Shaped-set bm w word s.1 h)

-- The bitmap with bit `b` of word `w` written.
abbrev pub put : List (List Bool) → ℕ → ℕ → Bool → List (List Bool)
put bm w b v = set bm w (set (get_or bm w []) b v)

module _ (bm : List (List Bool)) (w b : ℕ) (v : Bool) (s : Shaped bm) (h : w < length bm) where
  pub put-Shaped : Shaped (put bm w b v)
  put-Shaped =
      Shaped-set bm w (set (get_or bm w []) b v) s
        (length-set (get_or bm w []) b v ∙ Shaped-elem bm w s h)

  pub bit_at-put_self : (k : ℕ) → b < 64 → k ≡ w * 64 + b → bit_at (put bm w b v) k ≡ v
  bit_at-put_self k l e =
      ap₂ (λ p q. get_or (get_or (put bm w b v) p []) q false) (omega arith) (omega arith)
      ∙ ap (λ t. get_or t b false) (get_or-set_self bm w (set (get_or bm w []) b v) [] h)
      ∙ get_or-set_self (get_or bm w []) b v false (omega (arith, Shaped-elem bm w s h))

  pub bit_at-put_ne : (k : ℕ) → b < 64 → k ≢ w * 64 + b → bit_at (put bm w b v) k ≡ bit_at bm k
  bit_at-put_ne k l e = elim (ℕ_discrete w (k / 64)) [
    | yes q ↦
        ap (λ t. get_or (get_or (put bm w b v) t []) (k % 64) false) (sym q)
        ∙ ap (λ t. get_or t (k % 64) false) (get_or-set_self bm w (set (get_or bm w []) b v) [] h)
        ∙ get_or-set_ne (get_or bm w []) b (k % 64) v false (λ r. e (omega (arith, q, r)))
        ∙ ap (λ t. get_or (get_or bm t []) (k % 64) false) q
    | no n ↦
        ap (λ t. get_or t (k % 64) false)
          (get_or-set_ne bm w (k / 64) (set (get_or bm w []) b v) [] n)
  ]

-- The first clear bit is clear, and one of the bits that count.
pub first_clear-some :
    (bits : List Bool) (n i : ℕ)
    → first_clear bits n ≡ some i
    → (i < n) × (i < length bits) × (get_or bits i false ≡ false)
first_clear-some [] n i h = absurd (none-ne-some i h)
first_clear-some (b ∷ bs) zero i h = absurd (none-ne-some i h)
first_clear-some (false ∷ bs) (suc n) i h =
    let e : 0 ≡ i = some-injective _ _ h in
    (omega (arith, e), omega (arith, e), subst (λ t. get_or (false ∷ bs) t false ≡ false) e refl)
first_clear-some (true ∷ bs) (suc n) i h = elim (Option-cases (first_clear bs n)) [
  | inl q ↦ absurd (none-ne-some i (sym (ap shifted q) ∙ h))
  | inr f ↦
      let e : suc f.0 ≡ i = some-injective _ _ (sym (ap shifted f.1) ∙ h) in
      let rest = first_clear-some bs n f.0 f.1 in
      (
        omega (arith, e, rest.0),
        omega (arith, e, rest.1),
        subst (λ t. get_or (true ∷ bs) t false ≡ false) e rest.2,
      )
]

-- Without a clear bit all the bits that count are set.
pub first_clear-none :
    (bits : List Bool) (n i : ℕ)
    → first_clear bits n ≡ none
    → i < n
    → i < length bits
    → get_or bits i false ≡ true
first_clear-none [] n i h l m = absurd (omega arith)
first_clear-none (b ∷ bs) zero i h l m = absurd (omega arith)
first_clear-none (false ∷ bs) (suc n) i h l m = absurd (none-ne-some 0 (sym h))
first_clear-none (true ∷ bs) (suc n) zero h l m = refl
first_clear-none (true ∷ bs) (suc n) (suc i) h l m = elim (Option-cases (first_clear bs n)) [
  | inl q ↦ first_clear-none bs n i q (omega arith) (omega arith)
  | inr f ↦ absurd (none-ne-some (suc f.0) (sym h ∙ ap shifted f.1))
]
