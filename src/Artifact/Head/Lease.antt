-- ===== src/Artifact/Head/Lease.antt =====
-- The fenced write lease of an artifact, over any sequence of calls.
use shm_actors.Prelude.{
  ℕ, suc, ◌+◌, ◌%◌, ◌^◌, ◌<◌, ◌≡◌, ◌≢◌, ◌↔◌, inl, inr, refl, sym, ap, subst, ◌∙◌, Bool, true, false,
  none, List, [], ◌∷◌, arith, ◌==◌, if◌then◌else◌, ==_iff, Bool-cases, ℕ_discrete, ne→==_false,
}
use shm_actors.Artifact.Head.{
  ArtifactHead, owner_none, pack_lease, lease_owner, lease_fence, acquire_write_lease,
  lease_held_by, release_write_lease, force_release_write_lease,
}

-- A call on the lease: a writer takes it or gives it back, or the coordinator takes it away.
pub data Op : Type 0 where
  acquires : (owner : ℕ) → Op
  releases : (owner token : ℕ) → Op
  forces : Op

-- Whether the call ended a tenure, and the head after it.
unfoldable pub step : ArtifactHead → Op → Bool × ArtifactHead
unfolding acquire_write_lease release_write_lease force_release_write_lease
step h (acquires owner) = (false, (acquire_write_lease h owner).1)
step h (releases owner token) = release_write_lease h owner token
step h forces = force_release_write_lease h

unfoldable pub run : ArtifactHead → List Op → ArtifactHead
unfolding step
run h [] = h
run h (op ∷ ops) = run (step h op).1 ops

-- How many tenures ended.
unfoldable pub ended : ArtifactHead → List Op → ℕ
unfolding step
ended h [] = 0
ended h (op ∷ ops) =
    let later = ended (step h op).1 ops in if (step h op).0 then suc later else later

-- Owners are nonzero u32, and tokens u32.
abbrev pub Fits : List Op → Type 0
Fits [] = Unit {0}
Fits (acquires owner ∷ ops) = (0 < owner) × (owner < 2 ^ 32) × Fits ops
Fits (releases owner token ∷ ops) = (owner < 2 ^ 32) × (token < 2 ^ 32) × Fits ops
Fits (forces ∷ ops) = Fits ops

-- The owner and the fence of the lease.
pub record Reads (h : ArtifactHead) (owner fence : ℕ) : Type 0 where
  pub word : h.write_lease ≡ pack_lease owner fence
  pub owner_fits : owner < 2 ^ 32
  pub fence_fits : fence < 2 ^ 32

-- The lease `n` tenures after (owner, fence): the owner is the same if no tenure has ended.
pub record Since (owner fence n : ℕ) (h : ArtifactHead) : Type 0 where
  pub now : ℕ
  pub reads : Reads h now ((fence + n) % 2 ^ 32)
  pub first : n ≡ 0 → now ≡ owner

owner_of : (o f : ℕ) → o < 2 ^ 32 → f < 2 ^ 32 → lease_owner (pack_lease o f) ≡ o
owner_of o f a b = omega arith

fence_of : (o f : ℕ) → f < 2 ^ 32 → lease_fence (pack_lease o f) ≡ f
fence_of o f b = omega arith

lease_owner-Reads : (h : ArtifactHead) (o f : ℕ) → Reads h o f → lease_owner h.write_lease ≡ o
lease_owner-Reads h o f r = ap lease_owner r.word ∙ owner_of o f r.owner_fits r.fence_fits

lease_fence-Reads : (h : ArtifactHead) (o f : ℕ) → Reads h o f → lease_fence h.write_lease ≡ f
lease_fence-Reads h o f r = ap lease_fence r.word ∙ fence_of o f r.fence_fits

next_fence : (fence n : ℕ) → ((fence + n) % 2 ^ 32 + 1) % 2 ^ 32 ≡ (fence + suc n) % 2 ^ 32
next_fence fence n = omega arith

-- A tenure that ended counts once.
carried :
    (b : Bool) (n later : ℕ)
    → (if b then suc n else n) + later ≡ n + (if b then suc later else later)
carried b n later = ground arith

module _ (owner fence : ℕ) (real : 0 < owner) where
  -- A tenure ends, and the lease is free under the next fence.
  ended-Since :
      (n : ℕ) (h : ArtifactHead) (f : ℕ)
      → f ≡ (fence + n) % 2 ^ 32
      → Since owner fence
          (suc n)
          (record h { write_lease = pack_lease owner_none ((f + 1) % 2 ^ 32) })
  ended-Since n h f e = record {
    now = owner_none;
    reads = record {
      word = ap (pack_lease owner_none) (ap (λ t. (t + 1) % 2 ^ 32) e ∙ next_fence fence n);
      owner_fits = omega arith;
      fence_fits = omega arith;
    };
    first = λ z. absurd (omega (arith, z));
  }

  abbrev After : ℕ → Bool × ArtifactHead → Type 0
  After n r = Since owner fence (if r.0 then suc n else n) r.1

  acquires-Since :
      (n o : ℕ) (h : ArtifactHead)
      → 0 < o
      → o < 2 ^ 32
      → Since owner fence n h
      → Since owner fence n (acquire_write_lease h o).1
  unfolding acquire_write_lease
  acquires-Since n o h p l s = elim (Bool-cases (lease_owner h.write_lease == owner_none)) [
    | inr b ↦ rw (b) s
    | inl b ↦
        let none_now : s.now ≡ 0 =
          sym (lease_owner-Reads h s.now ((fence + n) % 2 ^ 32) s.reads)
          ∙ (==_iff (lease_owner h.write_lease) owner_none).0 b in
        rw (b) (record {
          now = o;
          reads = record {
            word = ap (pack_lease o) (lease_fence-Reads h s.now ((fence + n) % 2 ^ 32) s.reads);
            owner_fits = l;
            fence_fits = omega arith;
          };
          first = λ z. absurd (omega (arith, real, none_now, s.first z));
        })
  ]

  releases-Since :
      (n o t : ℕ) (h : ArtifactHead)
      → o < 2 ^ 32
      → t < 2 ^ 32
      → Since owner fence n h
      → After n (release_write_lease h o t)
  unfolding release_write_lease
  releases-Since n o t h l m s = elim (Bool-cases (h.write_lease == pack_lease o t)) [
    | inr b ↦ rw (b) s
    | inl b ↦ rw (b) (
        ended-Since n h t (
          sym (fence_of o t m)
          ∙ ap lease_fence (sym ((==_iff h.write_lease (pack_lease o t)).0 b))
          ∙ lease_fence-Reads h s.now ((fence + n) % 2 ^ 32) s.reads))
  ]

  forces-Since :
      (n : ℕ) (h : ArtifactHead) → Since owner fence n h → After n (force_release_write_lease h)
  unfolding force_release_write_lease
  forces-Since n h s = elim (Bool-cases (lease_owner h.write_lease == owner_none)) [
    | inl b ↦ rw (b) s
    | inr b ↦ rw (b) (
        ended-Since n h (lease_fence h.write_lease)
          (lease_fence-Reads h s.now ((fence + n) % 2 ^ 32) s.reads))
  ]

  run-Since :
      (ops : List Op) (n : ℕ) (h : ArtifactHead)
      → Fits ops
      → Since owner fence n h
      → Since owner fence (n + ended h ops) (run h ops)
  unfolding run ended step
  run-Since [] n h f s = subst (λ m. Since owner fence m h) (omega arith) s
  run-Since (acquires o ∷ ops) n h f s =
      run-Since ops n (acquire_write_lease h o).1 f.2 (acquires-Since n o h f.0 f.1 s)
  run-Since (releases o t ∷ ops) n h f s =
      let r = release_write_lease h o t in
      subst (λ m. Since owner fence m (run r.1 ops)) (carried r.0 n (ended r.1 ops))
        (run-Since ops (if r.0 then suc n else n) r.1 f.2 (releases-Since n o t h f.0 f.1 s))
  run-Since (forces ∷ ops) n h f s =
      let r = force_release_write_lease h in
      subst (λ m. Since owner fence m (run r.1 ops)) (carried r.0 n (ended r.1 ops))
        (run-Since ops (if r.0 then suc n else n) r.1 f (forces-Since n h s))

other_fence : (fence n : ℕ) → fence < 2 ^ 32 → 0 < n → n < 2 ^ 32 → (fence + n) % 2 ^ 32 ≢ fence
other_fence fence n l p m e = omega (arith, e)

-- A writer that took the lease holds it, after any calls of any parties, just as long as no
-- tenure has ended: nobody can take the lease while it holds it, and once the tenure has ended,
-- its own release or by force, its token never matches the lease again. The number of tenures
-- that end in between is below 2^32.
pub lease_held_by_iff :
    (h : ArtifactHead) (owner fence : ℕ) (ops : List Op)
    → h.write_lease ≡ pack_lease owner fence
    → 0 < owner
    → owner < 2 ^ 32
    → fence < 2 ^ 32
    → Fits ops
    → ended h ops < 2 ^ 32
    → (lease_held_by (run h ops) owner fence ≡ true) ↔ (ended h ops ≡ 0)
lease_held_by_iff h owner fence ops w p l m f few = (
  λ held. elim (ℕ_discrete (ended h ops) 0) [
    | yes z ↦ z
    | no n ↦ absurd (
        other_fence fence (ended h ops) m (omega (arith, n)) few (
          sym (lease_fence-Reads (run h ops) s.now ((fence + ended h ops) % 2 ^ 32) s.reads)
          ∙ ap lease_fence ((==_iff (run h ops).write_lease (pack_lease owner fence)).0 held)
          ∙ fence_of owner fence m))
  ],
  λ z.
      (==_iff (run h ops).write_lease (pack_lease owner fence)).1
        (s.reads.word ∙ (λ i. pack_lease (s.first z i) (same z i))),
)
  where
    s : Since owner fence (ended h ops) (run h ops)
    s =
        subst (λ n. Since owner fence n (run h ops)) (omega arith)
          (run-Since owner fence p ops 0 h f (record {
            now = owner;
            reads = record {
              word = w ∙ ap (pack_lease owner) (omega arith);
              owner_fits = l;
              fence_fits = omega arith;
            };
            first = λ z. refl;
          }))

    same : ended h ops ≡ 0 → (fence + ended h ops) % 2 ^ 32 ≡ fence
    same z = omega (arith, z)

-- Of two writers, the one that asks while the other holds the lease is refused, and the head
-- stays as it is.
pub write_locked :
    (h : ArtifactHead) (owner fence other : ℕ)
    → h.write_lease ≡ pack_lease owner fence
    → 0 < owner
    → owner < 2 ^ 32
    → fence < 2 ^ 32
    → acquire_write_lease h other ≡ (none, h)
unfolding acquire_write_lease
write_locked h owner fence other w p l m = rw (locked) refl
  where
    locked : (lease_owner h.write_lease == owner_none) ≡ false
    locked =
        ne→==_false (lease_owner h.write_lease) owner_none
          (λ e. omega (arith, p, e, ap lease_owner w, owner_of owner fence l m))
