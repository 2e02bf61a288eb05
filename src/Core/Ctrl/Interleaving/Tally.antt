-- ===== src/Core/Ctrl/Interleaving/Tally.antt =====
-- How many threads stand where.
use shm_actors.Prelude.{
  ℕ, zero, suc, ◌+◌, ◌≡◌, refl, ◌∙◌, ap, true, false, some, List, [], ◌∷◌, ◌++◌, get_elem?, set,
  replicate, arith,
}
use shm_actors.Core.Ctrl.Interleaving.{
  Pc, borrowing, borrow_loaded, refused, holding, loaded, checked, storing, reclaiming, swapping,
  bumping, finished,
}

pub record Tally : Type 0 where
  pub late : ℕ  -- still to borrow
  pub pins : ℕ  -- pins that the count includes
  pub sure : ℕ  -- pins whose holder has seen that the owner is gone
  pub owners : ℕ  -- owner releases still to begin
  pub trying : ℕ  -- in `try_reclaim`
  pub pending : ℕ  -- freed the chunk, and are about to move the generation
  pub freed : ℕ  -- freed the chunk and returned true

abbrev pub none_counted : Tally
none_counted = record {
  late = 0;
  pins = 0;
  sure = 0;
  owners = 0;
  trying = 0;
  pending = 0;
  freed = 0;
}

abbrev pub weigh : Pc → Tally
weigh borrowing = record none_counted { late = 1 }
weigh (borrow_loaded cur) = record none_counted { late = 1 }
weigh refused = none_counted
weigh holding = record none_counted { pins = 1 }
weigh (loaded cur) = record none_counted { pins = 1 }
weigh (checked cur true) = record none_counted { pins = 1; sure = 1 }
weigh (checked cur false) = record none_counted { pins = 1 }
weigh storing = record none_counted { owners = 1 }
weigh reclaiming = record none_counted { trying = 1 }
weigh swapping = record none_counted { trying = 1 }
weigh bumping = record none_counted { pending = 1 }
weigh (finished true) = record none_counted { freed = 1 }
weigh (finished false) = none_counted

infixl 65 ◌⊕◌
abbrev pub ◌⊕◌ : Tally → Tally → Tally
a ⊕ b = record {
  late = a.late + b.late;
  pins = a.pins + b.pins;
  sure = a.sure + b.sure;
  owners = a.owners + b.owners;
  trying = a.trying + b.trying;
  pending = a.pending + b.pending;
  freed = a.freed + b.freed;
}

-- Threads that have not returned.
abbrev pub running : Tally → ℕ
running t = t.late + t.pins + t.owners + t.trying + t.pending

unfoldable pub tally : List Pc → Tally
tally [] = none_counted
tally (p ∷ ps) = weigh p ⊕ tally ps

⊕-left_comm : (a b c : Tally) → a ⊕ (b ⊕ c) ≡ b ⊕ (a ⊕ c)
⊕-left_comm a b c = ground arith

-- The threads but one, and what a move of that one does to the tally.
pub record Rest (ps : List Pc) (i : ℕ) (p : Pc) : Type 0 where
  pub others : Tally
  pub before : tally ps ≡ weigh p ⊕ others
  pub moved : (q : Pc) → tally (set ps i q) ≡ weigh q ⊕ others

pub rest : (ps : List Pc) (i : ℕ) (p : Pc) → get_elem? ps i ≡ some p → Rest ps i p
unfolding tally
rest [] i p e = absurd (cc)
rest (x ∷ ps) zero p e = record {
  others = tally ps;
  before = ap (λ t. weigh t ⊕ tally ps) (ground arith);
  moved = λ q. refl;
}
rest (x ∷ ps) (suc i) p e =
    let r = rest ps i p e in
    record {
      others = weigh x ⊕ r.others;
      before = ap (λ t. weigh x ⊕ t) r.before ∙ ⊕-left_comm (weigh x) (weigh p) r.others;
      moved = λ q. ap (λ t. weigh x ⊕ t) (r.moved q) ∙ ⊕-left_comm (weigh x) (weigh q) r.others;
    }

pub tally-holding :
    (n m : ℕ)
    → tally (replicate n holding ++ replicate m borrowing)
      ≡ record none_counted { late = m; pins = n }
unfolding tally
tally-holding zero zero = refl
tally-holding zero (suc m) = ground (arith, tally-holding zero m)
tally-holding (suc n) m = ground (arith, tally-holding n m)
