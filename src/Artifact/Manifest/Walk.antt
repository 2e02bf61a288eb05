-- ===== src/Artifact/Manifest/Walk.antt =====
-- What a walk down a chain of manifests answers.
use shm_actors.Prelude.{
  ◌⊎◌, ℕ, zero, suc, ◌+◌, ◌≤◌, ◌<◌, ◌≡◌, inl, inr, refl, sym, ap, subst, ◌∙◌, Bool, true, false,
  Option, none, some, List, [], ◌∷◌, ok, err, ◌>>=◌, ◌==◌, ◌||◌, if◌then◌else◌, length, arith,
  Bool-cases, err≢ok, ok-injective,
}
use shm_actors.Artifact.Error.{ArtifactResult, version_gone}
use shm_actors.Artifact.Manifest.{
  Manifest, ManifestLink, is_foreign, is_bad_link, is_other, follow, end_of_chain, walk_from,
  walk_chain_newest_first,
}

-- Where a walk ends: at a root, or at a manifest with a link that `stop` does not want followed.
abbrev pub Ends : (Manifest → Bool) → Manifest → Type 0
Ends stop m =
    ((m.prev ≡ none) × (m.depth ≡ 0) × (m.total_batches ≡ length m.batch_spans))
    ⊎ ((stop m ≡ true) × (0 < m.depth) × ((link : ManifestLink) × (m.prev ≡ some link)))

-- The manifests from one down to the one that ends the walk, of one artifact and one schema.
pub data Chain (stop : Manifest → Bool) (artifact_id schema_id : ℕ)
    : Manifest → List Manifest → Manifest → Type 0 where
  ends :
      {m : Manifest}
      → m.artifact_id ≡ artifact_id
      → m.schema_id ≡ schema_id
      → Ends stop m
      → Chain stop artifact_id schema_id m (m ∷ []) m
  links :
      {m p last : Manifest} {ms : List Manifest}
      → m.artifact_id ≡ artifact_id
      → m.schema_id ≡ schema_id
      → stop m ≡ false
      → p.version < m.version
      → m.depth ≡ p.depth + 1
      → m.total_batches ≡ p.total_batches + length m.batch_spans
      → Chain stop artifact_id schema_id p ms last
      → Chain stop artifact_id schema_id m (m ∷ ms) last

abbrev pub batches : List Manifest → ℕ
batches [] = 0
batches (m ∷ ms) = length m.batch_spans + batches ms

-- How a chain's length and its batches go by what its first and its last manifest say.
pub length-Chain :
    (stop : Manifest → Bool) (a s : ℕ) (m last : Manifest) (ms : List Manifest)
    → Chain stop a s m ms last
    → Ends stop last
      × (length ms + last.depth ≡ m.depth + 1)
      × (batches ms + last.total_batches ≡ m.total_batches + length last.batch_spans)
length-Chain stop a s _ _ _ (ends {m = m} i j e) = (e, omega arith, omega arith)
length-Chain stop a s _ _ _ (links {m = m} {p = p} {last = last} {ms = ms} i j n v d t c) =
    let rest = length-Chain stop a s p last ms c in
    (rest.0, omega (arith, d, rest.1), omega (arith, t, rest.2))

native_of :
    (head cur : Manifest)
    → is_foreign head cur ≡ false
    → (cur.artifact_id ≡ head.artifact_id)
      × (cur.schema_id ≡ head.schema_id)
      × (length cur.batch_spans ≤ cur.total_batches)
native_of head cur e = ground (arith, e)

end_inv :
    (left : ℕ) (cur : Manifest) (chain : List Manifest)
    → end_of_chain left cur ≡ ok chain
    → (cur.depth ≡ 0) × (cur.total_batches ≡ length cur.batch_spans) × (chain ≡ cur ∷ [])
end_inv left cur chain e = grind arith

-- What a walk from a manifest answers.
abbrev Walked : (Manifest → Bool) → Manifest → Manifest → List Manifest → Type 0
Walked stop head cur chain =
    (last : Manifest) × Chain stop head.artifact_id head.schema_id cur chain last

ends_of :
    (stop : Manifest → Bool) (left : ℕ) (head cur : Manifest) (chain : List Manifest)
    → is_foreign head cur ≡ false
    → cur.prev ≡ none
    → end_of_chain left cur ≡ ok chain
    → Walked stop head cur chain
ends_of stop left head cur chain f p e =
    let inv = end_inv left cur chain e in
    let own = native_of head cur f in
    (
      cur,
      subst (λ c. Chain stop head.artifact_id head.schema_id cur c cur) (sym inv.2)
          (ends own.0 own.1 (inl (p, inv.0, inv.1))),
    )

-- The rest of a walk succeeds, and what it answers stands behind the manifest.
cons_inv :
    (other : Bool) (cur : Manifest) (rest : ArtifactResult (List Manifest)) (chain : List Manifest)
    → (if other then err version_gone else (rest >>= λ ms. ok (cur ∷ ms))) ≡ ok chain
    → (other ≡ false) × ((ms : List Manifest) × (rest ≡ ok ms) × (chain ≡ cur ∷ ms))
cons_inv true cur rest chain e = absurd (err≢ok e)
cons_inv false cur (err x) chain e = absurd (err≢ok e)
cons_inv false cur (ok ms) chain e = (refl, (ms, refl, sym (ok-injective e)))

-- What the tests of a link say.
link_fits :
    (cur prev : Manifest) (link : ManifestLink)
    → length cur.batch_spans ≤ cur.total_batches
    → (cur.depth == 0 || is_bad_link cur link) ≡ false
    → is_other link prev ≡ false
    → (prev.version < cur.version)
      × (cur.depth ≡ prev.depth + 1)
      × (cur.total_batches ≡ prev.total_batches + length cur.batch_spans)
link_fits cur prev link l b o = ground (arith, b, o)

module _ (head : Manifest) (read_prev : ManifestLink → ArtifactResult Manifest)
    (stop : Manifest → Bool) where
  abbrev Follows : ℕ → Type 0
  Follows left =
      (cur : Manifest) (chain : List Manifest)
      → walk_from head read_prev stop left cur ≡ ok chain
      → Walked stop head cur chain

  -- A link that is followed.
  links_of :
      (left : ℕ) (cur : Manifest) (link : ManifestLink) (read : ArtifactResult Manifest)
      (chain : List Manifest)
      → Follows left
      → is_foreign head cur ≡ false
      → (cur.depth == 0 || is_bad_link cur link) ≡ false
      → stop cur ≡ false
      → follow cur link read (walk_from head read_prev stop left) ≡ ok chain
      → Walked stop head cur chain
  links_of left cur link (err x) chain ih f b n e = absurd (err≢ok e)
  links_of left cur link (ok prev) chain ih f b n e =
      let own = native_of head cur f in
      let inv =
        cons_inv (is_other link prev) cur (walk_from head read_prev stop left prev) chain e in
      let fits = link_fits cur prev link own.2 b inv.0 in
      let below = ih prev inv.1.0 inv.1.1 in
      (
        below.0,
        subst (λ c. Chain stop head.artifact_id head.schema_id cur c below.0) (sym inv.1.2)
            (links own.0 own.1 n fits.0 fits.1 fits.2 below.1),
      )

  -- A manifest by what it links.
  zero_of :
      (prev : Option ManifestLink) (cur : Manifest) (chain : List Manifest)
      → cur.prev ≡ prev
      → is_foreign head cur ≡ false
      → elim prev [ none ↦ end_of_chain 0 cur | some link ↦ err version_gone ] ≡ ok chain
      → Walked stop head cur chain
  zero_of none cur chain p f e = ends_of stop 0 head cur chain f p e
  zero_of (some link) cur chain p f e = absurd (err≢ok e)

  -- What a walk does at a manifest with a link, by the tests of the link and of the manifest.
  abbrev at_link :
      Bool → Bool → Manifest → ArtifactResult (List Manifest) → ArtifactResult (List Manifest)
  at_link bad stops cur more =
      if bad then err version_gone else if stops then ok (cur ∷ []) else more

  at_link-Walked :
      (left : ℕ) (cur : Manifest) (link : ManifestLink) (chain : List Manifest)
      → Follows left
      → cur.prev ≡ some link
      → is_foreign head cur ≡ false
      → (bad stops : Bool) → (cur.depth == 0 || is_bad_link cur link) ≡ bad
      → stop cur ≡ stops
      → at_link bad stops cur
          (follow cur link (read_prev link) (walk_from head read_prev stop left))
        ≡ ok chain
      → Walked stop head cur chain
  at_link-Walked left cur link chain ih p f true stops b n e = absurd (err≢ok e)
  at_link-Walked left cur link chain ih p f false true b n e =
      let own = native_of head cur f in
      (
        cur,
        subst (λ c. Chain stop head.artifact_id head.schema_id cur c cur) (ok-injective e)
            (ends own.0 own.1 (inr (n, ground (arith, b), (link, p)))),
      )
  at_link-Walked left cur link chain ih p f false false b n e =
      links_of left cur link (read_prev link) chain ih f b n e

  suc_of :
      (left : ℕ) (prev : Option ManifestLink) (cur : Manifest) (chain : List Manifest)
      → Follows left
      → cur.prev ≡ prev
      → is_foreign head cur ≡ false
      → elim prev [
        | none ↦ end_of_chain (suc left) cur
        | some link ↦
            at_link
              (cur.depth == 0 || is_bad_link cur link)
              (stop cur)
              cur
              (follow cur link (read_prev link) (walk_from head read_prev stop left))
      ]
        ≡ ok chain
      → Walked stop head cur chain
  suc_of left none cur chain ih p f e = ends_of stop (suc left) head cur chain f p e
  suc_of left (some link) cur chain ih p f e =
      at_link-Walked left cur link chain ih p f (cur.depth == 0 || is_bad_link cur link) (stop cur)
        refl refl e

  -- The test of the manifest's own fields was passed.
  not_foreign :
      (cur : Manifest) (rest : ArtifactResult (List Manifest)) (chain : List Manifest)
      → (if is_foreign head cur then err version_gone else rest) ≡ ok chain
      → (is_foreign head cur ≡ false) × (rest ≡ ok chain)
  not_foreign cur rest chain e = elim (Bool-cases (is_foreign head cur)) [
    | inl b ↦ absurd (err≢ok (ap (λ c. if c then err version_gone else rest) (sym b) ∙ e))
    | inr b ↦ (b, ap (λ c. if c then err version_gone else rest) (sym b) ∙ e)
  ]

  walk_from-Chain : (left : ℕ) → Follows left
  unfolding walk_from
  walk_from-Chain zero cur chain e =
      let n = not_foreign cur _ chain e in zero_of cur.prev cur chain refl n.0 n.1
  walk_from-Chain (suc left) cur chain e =
      let n = not_foreign cur _ chain e in
      suc_of left cur.prev cur chain (walk_from-Chain left) refl n.0 n.1

-- A walk that succeeds, whatever it reads and wherever it is told to stop, answers with manifests
-- from the head on, the head first: of one artifact and one schema, each older than the one before
-- it and one less deep, and none but the last one of those to stop at. The last one is a root, or
-- one to stop at that has a link. Their number is one more than the head's depth less the last
-- one's, and their batches are those of the head's total that are not below the last one.
pub walk_chain_newest_first-Chain :
    (head : Manifest) (read_prev : ManifestLink → ArtifactResult Manifest) (stop : Manifest → Bool)
    (chain : List Manifest)
    → walk_chain_newest_first head read_prev stop ≡ ok chain
    → (last : Manifest) × Chain stop head.artifact_id head.schema_id head chain last
      × Ends stop last
      × (length chain + last.depth ≡ head.depth + 1)
      × (batches chain + last.total_batches ≡ head.total_batches + length last.batch_spans)
unfolding walk_chain_newest_first
walk_chain_newest_first-Chain head read_prev stop chain e =
    let (last, c) = walk_from-Chain head read_prev stop head.depth head chain e in
    let counts = length-Chain stop head.artifact_id head.schema_id head last chain c in
    (last, c, counts.0, counts.1, counts.2)
