-- ===== src/Conditions/Kleene.antt =====
-- The match modes against Kleene's three-valued conjunction and disjunction.
use pluris.Prelude.{
  Bool, true, false, List, [], ◌∷◌, if◌then◌else◌, ◌≡◌, refl, arith, sym, ◌∙◌, ap, ap₂,
}
use mathlib.Core.List.{Perm, Permᴰ}
use mathlib.Core.Logic.{∥∥₁_elim}
use pluris.Conditions.{
  Verdict, pass, fail, unknown, MatchMode, match_any, Condition, Group, Facts, Runtime,
  eval_condition, all_from, any_from, eval_group,
}

-- a false part decides; else a part that is not known leaves it open
abbrev pub both : Verdict → Verdict → Verdict
both fail w = fail
both pass w = w
both unknown fail = fail
both unknown w = unknown

-- a true part decides
abbrev pub either : Verdict → Verdict → Verdict
either pass w = pass
either fail w = w
either unknown pass = pass
either unknown w = unknown

abbrev pub every : List Verdict → Verdict
every [] = pass
every (v ∷ vs) = both v (every vs)

abbrev pub some_of : List Verdict → Verdict
some_of [] = fail
some_of (v ∷ vs) = either v (some_of vs)

-- what a match mode asks of the verdicts; every mode but "any" asks for all
abbrev pub combined : MatchMode → List Verdict → Verdict
combined match_any vs = some_of vs
combined _ vs = every vs

abbrev as_verdict : Bool → Verdict
as_verdict saw_unknown = if saw_unknown then unknown else fail

module _ {F : Type 0} (run : Runtime F) (facts : Facts) where
  abbrev pub verdicts : List Condition → List Verdict
  verdicts [] = []
  verdicts (c ∷ cs) = eval_condition run c facts ∷ verdicts cs

  all_from-unknown :
      (cs : List Condition) → all_from run unknown cs facts ≡ both unknown (every (verdicts cs))
  unfolding all_from
  all_from-unknown [] = refl
  all_from-unknown (c ∷ cs) = ground (arith, all_from-unknown cs)

  all_from-pass : (cs : List Condition) → all_from run pass cs facts ≡ every (verdicts cs)
  unfolding all_from
  all_from-pass [] = refl
  all_from-pass (c ∷ cs) = ground (arith, all_from-unknown cs, all_from-pass cs)

  any_from-eq :
      (saw_unknown : Bool) (cs : List Condition)
      → any_from run saw_unknown cs facts ≡ either (as_verdict saw_unknown) (some_of (verdicts cs))
  unfolding any_from
  any_from-eq saw_unknown [] = ground arith
  any_from-eq saw_unknown (c ∷ cs) = ground (arith, any_from-eq saw_unknown cs, any_from-eq true cs)

  -- A group's verdict is the three-valued disjunction of its conditions' verdicts in mode "any", and
  -- their conjunction in every other mode.
  pub eval_group-combined :
      (g : Group) → eval_group run g facts ≡ combined g.match_mode (verdicts g.conditions)
  unfolding eval_group
  eval_group-combined g = ground (arith, all_from-pass g.conditions, any_from-eq false g.conditions)

both_comm : (u v w : Verdict) → both u (both v w) ≡ both v (both u w)
both_comm u v w = ground arith

either_comm : (u v w : Verdict) → either u (either v w) ≡ either v (either u w)
either_comm u v w = ground arith

Verdict-set : IsSet Verdict
Verdict-set = hlevel

module _ {F : Type 0} (run : Runtime F) (facts : Facts) where
  every-perm :
      {cs ds : List Condition}
      → Permᴰ cs ds
      → every (verdicts run facts cs) ≡ every (verdicts run facts ds)
  every-perm Permᴰ.nil = refl
  every-perm (Permᴰ.cons e d) = ap₂ both (ap (λ c. eval_condition run c facts) e) (every-perm d)
  every-perm (Permᴰ.swap {a} {b} {l = l} e e') =
      rw (← e, ← e')
        (both_comm (eval_condition run a facts) (eval_condition run b facts)
          (every (verdicts run facts l)))
  every-perm (Permᴰ.trans d d') = every-perm d ∙ every-perm d'

  some_of-perm :
      {cs ds : List Condition}
      → Permᴰ cs ds
      → some_of (verdicts run facts cs) ≡ some_of (verdicts run facts ds)
  some_of-perm Permᴰ.nil = refl
  some_of-perm (Permᴰ.cons e d) =
      ap₂ either (ap (λ c. eval_condition run c facts) e) (some_of-perm d)
  some_of-perm (Permᴰ.swap {a} {b} {l = l} e e') =
      rw (← e, ← e')
        (either_comm (eval_condition run a facts) (eval_condition run b facts)
          (some_of (verdicts run facts l)))
  some_of-perm (Permᴰ.trans d d') = some_of-perm d ∙ some_of-perm d'

  combined-perm :
      (mode : MatchMode) {cs ds : List Condition}
      → Permᴰ cs ds
      → combined mode (verdicts run facts cs) ≡ combined mode (verdicts run facts ds)
  combined-perm match_any d = some_of-perm d
  combined-perm _ d = every-perm d

-- The order of a group's conditions does not change its verdict, in any match mode.
pub eval_group-perm :
    {F : Type 0} (run : Runtime F) (facts : Facts) (g : Group) (cs ds : List Condition)
    → Perm cs ds
    → eval_group run (record g { conditions = cs }) facts
      ≡ eval_group run (record g { conditions = ds }) facts
eval_group-perm run facts g cs ds p =
    eval_group-combined run facts (record g { conditions = cs })
    ∙ ∥∥₁_elim p (Verdict-set _ _) (combined-perm run facts g.match_mode)
    ∙ sym (eval_group-combined run facts (record g { conditions = ds }))
