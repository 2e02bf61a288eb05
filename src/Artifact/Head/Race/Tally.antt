-- ===== src/Artifact/Head/Race/Tally.antt =====
-- How many threads stand where on a pin slot.
use shm_actors.Prelude.{
  ℕ, zero, suc, ◌+◌, ◌≤◌, ◌≡◌, refl, ◌∙◌, ap, ◌⊎◌, some, List, [], ◌∷◌, get_elem?, set, length,
  arith,
}
use shm_actors.Artifact.Head.Race.{
  Pc, publishing, checking_state, checking_version, checking_incarnation, checking_desc,
  checking_manifest, pinned, undoing, undone, undone_of, dropped, finding_state, finding_version,
  finding_manifest, checking_current, electing, scanning, reverting, rescanning, releasing,
  clearing_version, clearing_manifest, clearing_state, claiming, storing_manifest, storing_version,
  revalidating, giving_version, giving_manifest, giving_state, loading_prior, installing,
  storing_desc, rolling_state, rolling_version, dropping_version, dropping_state, retiring,
  finished,
}

pub record Tally : Type 0 where
  pub late : ℕ  -- still to publish a pin
  pub unsure : ℕ  -- counted in the pins, and the state not seen LIVE since
  pub sure : ℕ  -- counted in the pins, and the state seen LIVE since
  pub elected : ℕ  -- reclaimers that have not scanned the pins, or found some
  pub past : ℕ  -- reclaimers that found no pin, and free the version
  pub rolling : ℕ  -- committers about to free the slot that they claimed, without a scan

abbrev pub none_counted : Tally
none_counted = record { late = 0; unsure = 0; sure = 0; elected = 0; past = 0; rolling = 0 }

abbrev pub weigh : Pc → Tally
weigh (publishing v inc) = record none_counted { late = 1 }
weigh (checking_state v inc) = record none_counted { unsure = 1 }
weigh undoing = record none_counted { unsure = 1 }
weigh (checking_version v inc) = record none_counted { sure = 1 }
weigh (checking_incarnation v inc) = record none_counted { sure = 1 }
weigh (checking_desc v) = record none_counted { sure = 1 }
weigh (checking_manifest v desc) = record none_counted { sure = 1 }
weigh (pinned v) = record none_counted { sure = 1 }
weigh (scanning v by) = record none_counted { elected = 1 }
weigh (reverting v by) = record none_counted { elected = 1 }
weigh releasing = record none_counted { past = 1 }
weigh clearing_version = record none_counted { past = 1 }
weigh clearing_manifest = record none_counted { past = 1 }
weigh clearing_state = record none_counted { past = 1 }
weigh giving_version = record none_counted { rolling = 1 }
weigh giving_manifest = record none_counted { rolling = 1 }
weigh giving_state = record none_counted { rolling = 1 }
weigh dropping_version = record none_counted { rolling = 1 }
weigh dropping_state = record none_counted { rolling = 1 }
weigh undone = none_counted
weigh (undone_of v) = none_counted
weigh (dropped v) = none_counted
weigh (finding_state v by) = none_counted
weigh (finding_version v by) = none_counted
weigh (finding_manifest v by bits) = none_counted
weigh (checking_current v by) = none_counted
weigh (electing v by) = none_counted
weigh (rescanning v by) = none_counted
weigh (claiming e v m inc) = none_counted
weigh (storing_manifest e v m inc) = none_counted
weigh (storing_version e v m inc) = none_counted
weigh (revalidating e v m inc) = none_counted
weigh (loading_prior e v m) = none_counted
weigh (installing e v m prior) = none_counted
weigh (storing_desc e m prior) = none_counted
weigh (rolling_state v) = none_counted
weigh (rolling_version v) = none_counted
weigh retiring = none_counted
weigh finished = none_counted

infixl 65 ◌⊞◌
abbrev pub ◌⊞◌ : Tally → Tally → Tally
a ⊞ b = record {
  late = a.late + b.late;
  unsure = a.unsure + b.unsure;
  sure = a.sure + b.sure;
  elected = a.elected + b.elected;
  past = a.past + b.past;
  rolling = a.rolling + b.rolling;
}

unfoldable pub tally : List Pc → Tally
tally [] = none_counted
tally (p ∷ ps) = weigh p ⊞ tally ps

⊞-left_comm : (a b c : Tally) → a ⊞ (b ⊞ c) ≡ b ⊞ (a ⊞ c)
⊞-left_comm a b c = ground arith

-- The threads but one, and what a move of that one does to the tally.
pub record Rest (ps : List Pc) (i : ℕ) (p : Pc) : Type 0 where
  pub others : Tally
  pub before : tally ps ≡ weigh p ⊞ others
  pub moved : (q : Pc) → tally (set ps i q) ≡ weigh q ⊞ others

pub rest : (ps : List Pc) (i : ℕ) (p : Pc) → get_elem? ps i ≡ some p → Rest ps i p
unfolding tally
rest [] i p e = absurd (cc)
rest (x ∷ ps) zero p e = record {
  others = tally ps;
  before = ap (λ t. weigh t ⊞ tally ps) (ground arith);
  moved = λ q. refl;
}
rest (x ∷ ps) (suc i) p e =
    let r = rest ps i p e in
    record {
      others = weigh x ⊞ r.others;
      before = ap (λ t. weigh x ⊞ t) r.before ∙ ⊞-left_comm (weigh x) (weigh p) r.others;
      moved = λ q. ap (λ t. weigh x ⊞ t) (r.moved q) ∙ ⊞-left_comm (weigh x) (weigh q) r.others;
    }

-- A thread that has not begun.
abbrev pub IsFresh : Pc → Type 0
IsFresh p = (weigh p ≡ record none_counted { late = 1 }) ⊎ (weigh p ≡ none_counted)

abbrev pub AllFresh : List Pc → Type 0
AllFresh [] = Unit {0}
AllFresh (p ∷ ps) = IsFresh p × AllFresh ps

pub tally-AllFresh :
    (ps : List Pc)
    → AllFresh ps
    → (tally ps ≡ record none_counted { late = (tally ps).late }) × ((tally ps).late ≤ length ps)
unfolding tally
tally-AllFresh [] f = (refl, omega arith)
tally-AllFresh (p ∷ ps) f = ground (arith, f.0, tally-AllFresh ps f.1)
