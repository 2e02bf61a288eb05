-- ===== src/Ring/Race/Fields.antt =====
-- Descriptors that are written and copied field by field.
use shm_actors.Prelude.{ℕ, zero, suc, ◌≤◌, ◌≡◌, refl, ◌⊎◌, inl, inr, arith, subst, sym}
use shm_actors.Core.Desc.{ChunkDesc}
use shm_actors.Ring.Race.{put_field}

-- The first `n` fields of `a`, and the others of `b`.
abbrev pub mix : (n : ℕ) → (a b : ChunkDesc) → ChunkDesc
mix zero a b = b
mix (suc n) a b = put_field n a (mix n a b)

pub mix_all : (a b : ChunkDesc) → mix 6 a b ≡ a
mix_all a b = refl

-- Field `n` of `d` is that of `a` or that of `b`.
abbrev pub Either : (n : ℕ) → (a b d : ChunkDesc) → Type 0
Either zero a b d = (d.segment_id ≡ a.segment_id) ⊎ (d.segment_id ≡ b.segment_id)
Either (suc zero) a b d = (d.generation ≡ a.generation) ⊎ (d.generation ≡ b.generation)
Either (suc (suc zero)) a b d = (d.offset ≡ a.offset) ⊎ (d.offset ≡ b.offset)
Either (suc (suc (suc zero))) a b d = (d.len ≡ a.len) ⊎ (d.len ≡ b.len)
Either (suc (suc (suc (suc zero)))) a b d =
    (d.schema_id ≡ a.schema_id) ⊎ (d.schema_id ≡ b.schema_id)
Either (suc (suc (suc (suc (suc n))))) a b d = (d.pad ≡ a.pad) ⊎ (d.pad ≡ b.pad)

-- So are the fields before field `n`.
abbrev pub Among : (n : ℕ) → (a b d : ChunkDesc) → Type 0
Among zero a b d = Unit {0}
Among (suc n) a b d = Among n a b d × Either n a b d

-- Each field of `d` is that of `a` or that of `b`.
pub record FromEither (a b d : ChunkDesc) : Type 0 where
  pub segment_id : (d.segment_id ≡ a.segment_id) ⊎ (d.segment_id ≡ b.segment_id)
  pub generation : (d.generation ≡ a.generation) ⊎ (d.generation ≡ b.generation)
  pub offset : (d.offset ≡ a.offset) ⊎ (d.offset ≡ b.offset)
  pub len : (d.len ≡ a.len) ⊎ (d.len ≡ b.len)
  pub schema_id : (d.schema_id ≡ a.schema_id) ⊎ (d.schema_id ≡ b.schema_id)
  pub pad : (d.pad ≡ a.pad) ⊎ (d.pad ≡ b.pad)

pub Among-FromEither : (a b d : ChunkDesc) → Among 6 a b d → FromEither a b d
Among-FromEither a b d ((((((u, w0), w1), w2), w3), w4), w5) = record {
  segment_id = w0;
  generation = w1;
  offset = w2;
  len = w3;
  schema_id = w4;
  pad = w5;
}

pub first-Among : (a b : ChunkDesc) → Among 6 a b a
first-Among a b = ((((((tt, inl refl), inl refl), inl refl), inl refl), inl refl), inl refl)

second-Among : (a b : ChunkDesc) → Among 6 a b b
second-Among a b = ((((((tt, inr refl), inr refl), inr refl), inr refl), inr refl), inr refl)

pub whole-Among : (a b d : ChunkDesc) → (d ≡ a) ⊎ (d ≡ b) → Among 6 a b d
whole-Among a b d (inl e) = subst (Among 6 a b) (sym e) (first-Among a b)
whole-Among a b d (inr e) = subst (Among 6 a b) (sym e) (second-Among a b)

put_second-Among : (n : ℕ) (a b d : ChunkDesc) → Among 6 a b d → Among 6 a b (put_field n b d)
put_second-Among zero a b d ((((((u, w0), w1), w2), w3), w4), w5) =
    ((((((u, inr refl), w1), w2), w3), w4), w5)
put_second-Among (suc zero) a b d ((((((u, w0), w1), w2), w3), w4), w5) =
    ((((((u, w0), inr refl), w2), w3), w4), w5)
put_second-Among (suc (suc zero)) a b d ((((((u, w0), w1), w2), w3), w4), w5) =
    ((((((u, w0), w1), inr refl), w3), w4), w5)
put_second-Among (suc (suc (suc zero))) a b d ((((((u, w0), w1), w2), w3), w4), w5) =
    ((((((u, w0), w1), w2), inr refl), w4), w5)
put_second-Among (suc (suc (suc (suc zero)))) a b d ((((((u, w0), w1), w2), w3), w4), w5) =
    ((((((u, w0), w1), w2), w3), inr refl), w5)
put_second-Among (suc (suc (suc (suc (suc n))))) a b d ((((((u, w0), w1), w2), w3), w4), w5) =
    ((((((u, w0), w1), w2), w3), w4), inr refl)

-- A descriptor that is overwritten by the next one.
pub mix-Among : (n : ℕ) (a b : ChunkDesc) → Among 6 a b (mix n b a)
mix-Among zero a b = first-Among a b
mix-Among (suc n) a b = put_second-Among n a b (mix n b a) (mix-Among n a b)

Among-Either : (n : ℕ) (a b d : ChunkDesc) → Among 6 a b d → Either n a b d
Among-Either zero a b d w = w.0.0.0.0.0.1
Among-Either (suc zero) a b d w = w.0.0.0.0.1
Among-Either (suc (suc zero)) a b d w = w.0.0.0.1
Among-Either (suc (suc (suc zero))) a b d w = w.0.0.1
Among-Either (suc (suc (suc (suc zero)))) a b d w = w.0.1
Among-Either (suc (suc (suc (suc (suc n))))) a b d w = w.1

-- One more field is copied.
pub copy-Among :
    (n : ℕ) (a b s d : ChunkDesc)
    → n ≤ 5
    → Among 6 a b s
    → Among n a b d
    → Among (suc n) a b (put_field n s d)
copy-Among zero a b s d l w h = (h, Among-Either 0 a b s w)
copy-Among (suc zero) a b s d l w h = (h, Among-Either 1 a b s w)
copy-Among (suc (suc zero)) a b s d l w h = (h, Among-Either 2 a b s w)
copy-Among (suc (suc (suc zero))) a b s d l w h = (h, Among-Either 3 a b s w)
copy-Among (suc (suc (suc (suc zero)))) a b s d l w h = (h, Among-Either 4 a b s w)
copy-Among (suc (suc (suc (suc (suc zero))))) a b s d l w h = (h, Among-Either 5 a b s w)
copy-Among (suc (suc (suc (suc (suc (suc n)))))) a b s d l w h = absurd (omega arith)
