-- ===== src/Artifact/Head/Race/Pins.antt =====
-- While a pin is accepted no reclaimer frees the version, as long as no committer gives up the slot.
use shm_actors.Prelude.{
  ℕ, ◌+◌, ◌^◌, ◌≤◌, ◌<◌, ◌∙◌, ◌≡◌, ◌≢◌, ◌⊎◌, inl, inr, List, [], ◌∷◌, some, get_elem?, set, length,
  Option-cases, subst, sym, ap, arith,
}
use shm_actors.Artifact.Head.{slot_free, slot_freeing}
use shm_actors.Artifact.Head.Race.{
  Pc, publishing, checking_state, checking_version, checking_incarnation, checking_desc,
  checking_manifest, pinned, undoing, undone, undone_of, dropped, finding_state, finding_version,
  finding_manifest, checking_current, electing, scanning, reverting, rescanning, releasing,
  clearing_version, clearing_manifest, clearing_state, claiming, storing_manifest, storing_version,
  revalidating, giving_version, giving_manifest, giving_state, loading_prior, installing,
  storing_desc, rolling_state, rolling_version, dropping_version, dropping_state, retiring,
  finished, Shared, advance, System, schedule, run,
}
use shm_actors.Artifact.Head.Race.Tally.{
  Tally, weigh, ◌⊞◌, tally, Rest, rest, AllFresh, tally-AllFresh,
}

-- The hazard handshake, with at most `bound` readers.
pub record Hazard (bound : ℕ) (c : Shared) (t : Tally) : Type 0 where
  pub small : t.unsure + t.sure + t.late ≤ bound
  pub counted : c.slot.pins ≡ t.unsure + t.sure
  pub phase :
      ((c.slot.state ≢ slot_freeing) × (t.elected + t.past ≡ 0))
      ⊎ ((c.slot.state ≡ slot_freeing) × (t.elected + t.past ≡ 1))
  pub guarded : (t.past ≡ 0) ⊎ (t.sure ≡ 0)
  pub kept : (t.sure ≡ 0) ⊎ (c.slot.state ≢ slot_free)

-- In no state of the run, but perhaps the last, is a committer about to free its slot.
abbrev pub NoneGivesUp : System → List ℕ → Type 0
NoneGivesUp s [] = Unit {0}
NoneGivesUp s (i ∷ is) = ((tally s.threads).rolling ≡ 0) × NoneGivesUp (schedule s i) is

module _ (bound : ℕ) (fits : bound < 2 ^ 32) where
  advance-Hazard :
      (p : Pc) (c : Shared) (others : Tally)
      → (weigh p ⊞ others).rolling ≡ 0
      → Hazard bound c (weigh p ⊞ others)
      → Hazard bound (advance p c).1 (weigh (advance p c).0 ⊞ others)
  unfolding advance
  advance-Hazard (publishing v inc) c t n r = ground arith
  advance-Hazard (checking_state v inc) c t n r = ground arith
  advance-Hazard (checking_version v inc) c t n r = ground arith
  advance-Hazard (checking_incarnation v inc) c t n r = ground arith
  advance-Hazard (checking_desc v) c t n r = ground arith
  advance-Hazard (checking_manifest v desc) c t n r = ground arith
  advance-Hazard (pinned v) c t n r = ground arith
  advance-Hazard undoing c t n r = ground arith
  advance-Hazard undone c t n r = ground arith
  advance-Hazard (undone_of v) c t n r = ground arith
  advance-Hazard (dropped v) c t n r = ground arith
  advance-Hazard (finding_state v by) c t n r = ground arith
  advance-Hazard (finding_version v by) c t n r = ground arith
  advance-Hazard (finding_manifest v by bits) c t n r = ground arith
  advance-Hazard (checking_current v by) c t n r = ground arith
  advance-Hazard (electing v by) c t n r = ground arith
  advance-Hazard (scanning v by) c t n r = ground arith
  advance-Hazard (reverting v by) c t n r = ground arith
  advance-Hazard (rescanning v by) c t n r = ground arith
  advance-Hazard releasing c t n r = ground arith
  advance-Hazard clearing_version c t n r = ground arith
  advance-Hazard clearing_manifest c t n r = ground arith
  advance-Hazard clearing_state c t n r = ground arith
  advance-Hazard (claiming e v m inc) c t n r = ground arith
  advance-Hazard (storing_manifest e v m inc) c t n r = ground arith
  advance-Hazard (storing_version e v m inc) c t n r = ground arith
  advance-Hazard (revalidating e v m inc) c t n r = ground arith
  advance-Hazard giving_version c t n r = ground arith
  advance-Hazard giving_manifest c t n r = ground arith
  advance-Hazard giving_state c t n r = ground arith
  advance-Hazard (loading_prior e v m) c t n r = ground arith
  advance-Hazard (installing e v m prior) c t n r = ground arith
  advance-Hazard (storing_desc e m prior) c t n r = ground arith
  advance-Hazard (rolling_state v) c t n r = ground arith
  advance-Hazard (rolling_version v) c t n r = ground arith
  advance-Hazard dropping_version c t n r = ground arith
  advance-Hazard dropping_state c t n r = ground arith
  advance-Hazard retiring c t n r = ground arith
  advance-Hazard finished c t n r = ground arith

  schedule-Hazard :
      (s : System) (i : ℕ)
      → (tally s.threads).rolling ≡ 0
      → Hazard bound s.shared (tally s.threads)
      → Hazard bound (schedule s i).shared (tally (schedule s i).threads)
  unfolding schedule
  schedule-Hazard s i n r = elim (Option-cases (get_elem? s.threads i)) [
    | inl e ↦ rw (e, schedule) r
    | inr (p, e) ↦ rw (e, schedule) (move p (rest s.threads i p e))
  ]
    where
      move :
          (p : Pc) (q : Rest s.threads i p)
          → Hazard bound (advance p s.shared).1 (tally (set s.threads i (advance p s.shared).0))
      move p q =
          subst (Hazard bound (advance p s.shared).1) (sym (q.moved (advance p s.shared).0)) (
            advance-Hazard p s.shared q.others (ap (λ t. t.rolling) (sym q.before) ∙ n)
              (subst (Hazard bound s.shared) q.before r))

  run-Hazard :
      (s : System) (is : List ℕ)
      → NoneGivesUp s is
      → Hazard bound s.shared (tally s.threads)
      → Hazard bound (run s is).shared (tally (run s is).threads)
  unfolding run
  run-Hazard s [] n r = r
  run-Hazard s (i ∷ is) n r = run-Hazard (schedule s i) is n.1 (schedule-Hazard s i n.0 r)

-- The threads begin at a slot without pins that no reclaimer has elected itself for.
start-Hazard :
    (s : System)
    → AllFresh s.threads
    → s.shared.slot.pins ≡ 0
    → s.shared.slot.state ≢ slot_freeing
    → Hazard (length s.threads) s.shared (tally s.threads)
start-Hazard s f p n = ground (arith, tally-AllFresh s.threads f)

sure_of : (ps : List Pc) (i v : ℕ) → get_elem? ps i ≡ some (pinned v) → 0 < (tally ps).sure
sure_of ps i v e = omega (arith, ap (λ t. t.sure) (rest ps i (pinned v) e).before)

-- Fewer than 2^32 readers, reclaimers and committers meet at a slot without pins that is not being
-- freed, and make their accesses in any order in which no committer gives up the slot that it
-- claimed, for a failed install or a stale handle. While some reader has its pin accepted, the slot
-- is not FREE, its count of pins is not zero, and no reclaimer is past the scan after which it
-- releases the manifest and frees the slot.
pub pinned_protected :
    (s : System) (is : List ℕ) (i v : ℕ)
    → AllFresh s.threads
    → length s.threads < 2 ^ 32
    → s.shared.slot.pins ≡ 0
    → s.shared.slot.state ≢ slot_freeing
    → NoneGivesUp s is
    → get_elem? (run s is).threads i ≡ some (pinned v)
    → ((run s is).shared.slot.state ≢ slot_free)
      × (0 < (run s is).shared.slot.pins)
      × ((tally (run s is).threads).past ≡ 0)
pinned_protected s is i v f l p n g e =
    let r = run-Hazard (length s.threads) l s is g (start-Hazard s f p n) in
    ground (arith, r.counted, r.guarded, r.kept, sure_of (run s is).threads i v e)
