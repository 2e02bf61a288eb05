-- ===== src/Artifact/Head/Race/Stale.antt =====
-- A reclaimer that is delayed before its election, while its slot is freed and claimed again.
use shm_actors.Prelude.{
  none, ℕ, ◌≡◌, ◌≢◌, sym, List, [], ◌∷◌, if◌then◌else◌, ==_refl, ap, ◌∙◌, ne→==_false,
}
use shm_actors.Artifact.Head.{slot_live, slot_freeing}
use shm_actors.Artifact.Head.Race.{
  Pc, Shared, finding_state, finding_version, checking_current, electing, finished, claiming,
  revalidating, giving_version, loading_prior, installing, storing_desc, rolling_state, advance,
  System, schedule, run,
}

-- A slot with version `v` and without pins, while `w` is the current version, and `md` its manifest.
-- Two reclaimers of `v`, and a committer of version `w'` with manifest `m'`.
unfoldable pub stale_start : (v m w md inc w' m' : ℕ) → System
stale_start v m w md inc w' m' = record {
  shared = record {
    slot = record { version = v; manifest = m; pins = 0; state = slot_live };
    current = w;
    manifest_desc = md;
    incarnation = inc;
    released = [];
  };
  threads = finding_state v none ∷ finding_state v none ∷ claiming w w' m' inc ∷ [];
}

-- The first reclaimer gets as far as its election, the second frees the slot, the committer
-- claims it and installs its version, and the first goes on.
abbrev pub stale_order : List ℕ
stale_order =
    0 ∷ 0 ∷ 0 ∷ 1 ∷ 1 ∷ 1 ∷ 1 ∷ 1 ∷ 1 ∷ 1 ∷ 1 ∷ 1 ∷ 2 ∷ 2 ∷ 2 ∷ 2 ∷ 2 ∷ 2 ∷ 2 ∷ 0 ∷ 0 ∷ 0 ∷ []

-- Three threads.
abbrev three : Pc → Pc → Pc → Shared → System
three p q r c = record { shared = c; threads = p ∷ q ∷ r ∷ [] }

module _ (v m w md inc : ℕ) (rel : List ℕ) where
  abbrev held_slot : Shared
  held_slot = record {
    slot = record { version = v; manifest = m; pins = 0; state = slot_live };
    current = w;
    manifest_desc = md;
    incarnation = inc;
    released = rel;
  }

  found : advance (finding_version v none) held_slot ≡ (checking_current v none, held_slot)
  unfolding advance
  found = ap (λ b. (if b then checking_current v none else finished, held_slot)) (==_refl v)

  -- A committer of this version that finds the head of its own incarnation, and the version that
  -- it expected.
  installs :
      advance (installing w v m md) held_slot
      ≡ (storing_desc w m md, record held_slot { current = v })
  unfolding advance
  installs =
      ap
        (λ b.
          if b
          then (storing_desc w m md, record held_slot { current = v })
          else (rolling_state v, held_slot))
        (==_refl w)

  revalidates : advance (revalidating w v m inc) held_slot ≡ (loading_prior w v m, held_slot)
  unfolding advance
  revalidates =
      ap (λ b. (if b then loading_prior w v m else giving_version, held_slot)) (==_refl inc)

  module _ (n : v ≢ w) where
    not_current : advance (checking_current v none) held_slot ≡ (electing v none, held_slot)
    unfolding advance
    not_current =
        ap (λ b. (if b then finished else electing v none, held_slot))
          (ne→==_false w v (λ e. n (sym e)))

    -- The first thread finds the version and that it is not the current one, and so does the
    -- second.
    first_finds :
        (q r : Pc) (is : List ℕ)
        → run (three (finding_state v none) q r held_slot) (0 ∷ 0 ∷ 0 ∷ is)
          ≡ run (three (electing v none) q r held_slot) is
    unfolding run schedule advance
    first_finds q r is =
        ap (λ t. run (three t.0 q r t.1) (0 ∷ is)) found
        ∙ ap (λ t. run (three t.0 q r t.1) is) not_current

    second_finds :
        (p r : Pc) (is : List ℕ)
        → run (three p (finding_state v none) r held_slot) (1 ∷ 1 ∷ 1 ∷ is)
          ≡ run (three p (electing v none) r held_slot) is
    unfolding run schedule advance
    second_finds p r is =
        ap (λ t. run (three p t.0 r t.1) (1 ∷ is)) found
        ∙ ap (λ t. run (three p t.0 r t.1) is) not_current

-- The second thread frees the slot, the third claims it and installs its version, and the first
-- takes the slot and releases the manifest that it finds there.
rest_of_order :
    (v m w md inc w' m' : ℕ)
    → (run
        (three
          (electing v none)
          (electing v none)
          (claiming w w' m' inc)
          (held_slot v m w md inc []))
        (1 ∷ 1 ∷ 1 ∷ 1 ∷ 1 ∷ 1 ∷ 2 ∷ 2 ∷ 2 ∷ 2 ∷ 2 ∷ 2 ∷ 2 ∷ 0 ∷ 0 ∷ 0 ∷ [])).shared
      ≡ record {
        slot = record { version = w'; manifest = m'; pins = 0; state = slot_freeing };
        current = w';
        manifest_desc = m';
        incarnation = inc;
        released = m' ∷ m ∷ [];
      }
unfolding run schedule advance
rest_of_order v m w md inc w' m' =
    ap (λ t. (run (three (electing v none) finished t.0 t.1) (2 ∷ 2 ∷ 2 ∷ 0 ∷ 0 ∷ 0 ∷ [])).shared)
      (revalidates w' m' w md inc (m ∷ []))
    ∙ ap (λ t. (run (three (electing v none) finished t.0 t.1) (2 ∷ 0 ∷ 0 ∷ 0 ∷ [])).shared)
        (installs w' m' w md inc (m ∷ []))

-- Two reclaimers of a version that is no longer current, and a committer that claims the slot when
-- one of them has freed it: the other, which had found the version before, elects itself on the
-- slot of the new version, and releases the manifest of what is then the current version.
pub current_released :
    (v m w md inc w' m' : ℕ)
    → v ≢ w
    → let s = (run (stale_start v m w md inc w' m') stale_order).shared in
      (s.current ≡ w')
      × (s.manifest_desc ≡ m')
      × (s.slot.version ≡ w')
      × (s.slot.state ≡ slot_freeing)
      × (s.released ≡ m' ∷ m ∷ [])
unfolding stale_start
current_released v m w md inc w' m' n =
    let s =
      first_finds v m w md inc [] n (finding_state v none) (claiming w w' m' inc)
        (1 ∷ 1 ∷ 1 ∷ 1 ∷ 1 ∷ 1 ∷ 1 ∷ 1 ∷ 1 ∷ 2 ∷ 2 ∷ 2 ∷ 2 ∷ 2 ∷ 2 ∷ 2 ∷ 0 ∷ 0 ∷ 0 ∷ [])
      ∙ second_finds v m w md inc [] n (electing v none) (claiming w w' m' inc)
          (1 ∷ 1 ∷ 1 ∷ 1 ∷ 1 ∷ 1 ∷ 2 ∷ 2 ∷ 2 ∷ 2 ∷ 2 ∷ 2 ∷ 2 ∷ 0 ∷ 0 ∷ 0 ∷ []) in
    let end = ap (λ t. t.shared) s ∙ rest_of_order v m w md inc w' m' in
    (
      ap (λ t. t.current) end,
      ap (λ t. t.manifest_desc) end,
      ap (λ t. t.slot.version) end,
      ap (λ t. t.slot.state) end,
      ap (λ t. t.released) end,
    )
