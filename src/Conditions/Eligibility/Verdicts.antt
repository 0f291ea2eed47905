-- ===== src/Conditions/Eligibility/Verdicts.antt =====
-- The status of a module against its groups' verdicts.
use pluris.Prelude.{
  ℕ, Bool, true, false, Option, none, some, List, [], ◌∷◌, ◌++◌, Dict, lookup, id_eq, ◌≡◌, inl, inr,
  refl, sym, ◌∙◌, ap, ap₂, Option-cases,
}
use mathlib.Core.List.{append_assoc, append-nil}
use pluris.Conditions.{Verdict, Group, Facts, Runtime, eval_group}
use pluris.Conditions.Kleene.{every}
use pluris.Conditions.Eligibility.{
  Role, role_platform, role_requirement, ModuleLink, GroupResult, Tally, start, count_result,
  status_of, result_of, count_link, tally, eligible_links,
}
use pluris.Conditions.Eligibility.Aggregates.{
  passes, passes-snoc, IsConsistent, count_result-IsConsistent, agnostic, platform_verdict-agnostic,
  requirement_verdict-every,
}

abbrev pub is_platform : Role → Bool
is_platform role_platform = true
is_platform _ = false

abbrev pub is_requirement : Role → Bool
is_requirement role_requirement = true
is_requirement _ = false

abbrev pub when : Bool → Verdict → List Verdict
when true v = v ∷ []
when false v = []

count_result-platforms :
    (role : Role) (r : GroupResult) (t : Tally)
    → passes (count_result role r t).platforms
      ≡ passes t.platforms ++ when (is_platform role) r.pass
unfolding count_result
count_result-platforms role_platform r t = passes-snoc t.platforms r
count_result-platforms _ r t = sym (append-nil (passes t.platforms))

count_result-requirements :
    (role : Role) (r : GroupResult) (t : Tally)
    → passes (count_result role r t).requirements
      ≡ passes t.requirements ++ when (is_requirement role) r.pass
unfolding count_result
count_result-requirements role_requirement r t = passes-snoc t.requirements r
count_result-requirements _ r t = sym (append-nil (passes t.requirements))

module _ {F : Type 0} (run : Runtime F) (groups : Dict ℕ Group) where
  abbrev pub linked_one : Facts → Bool → Option Group → List Verdict
  linked_one facts counts none = []
  linked_one facts counts (some g) = when counts (eval_group run g facts)

  -- the verdicts of the groups that are linked in a role and are there
  abbrev pub linked : (Role → Bool) → List ModuleLink → Facts → List Verdict
  linked counts [] facts = []
  linked counts (l ∷ ls) facts =
      linked_one facts (counts l.role) (lookup l.group_id groups) ++ linked counts ls facts

  module _ (facts : Facts) where
    count_link-platforms :
        (l : ModuleLink) (t : Tally)
        → passes (count_link run groups facts l t).platforms
          ≡ passes t.platforms ++ linked_one facts (is_platform l.role) (lookup l.group_id groups)
    unfolding count_link
    count_link-platforms l t = elim (Option-cases (lookup l.group_id groups)) [
      | inl gone ↦ rw (gone, count_link) (sym (append-nil (passes t.platforms)))
      | inr (g, found) ↦
          rw (found, count_link) (count_result-platforms l.role (result_of run groups facts l g) t)
    ]

    count_link-requirements :
        (l : ModuleLink) (t : Tally)
        → passes (count_link run groups facts l t).requirements
          ≡ passes t.requirements
            ++ linked_one facts (is_requirement l.role) (lookup l.group_id groups)
    unfolding count_link
    count_link-requirements l t = elim (Option-cases (lookup l.group_id groups)) [
      | inl gone ↦ rw (gone, count_link) (sym (append-nil (passes t.requirements)))
      | inr (g, found) ↦
          rw (found, count_link)
            (count_result-requirements l.role (result_of run groups facts l g) t)
    ]

    count_link-IsConsistent :
        (l : ModuleLink) (t : Tally)
        → IsConsistent t
        → IsConsistent (count_link run groups facts l t)
    unfolding count_link
    count_link-IsConsistent l t c = elim (Option-cases (lookup l.group_id groups)) [
      | inl gone ↦ rw (gone, count_link) c
      | inr (g, found) ↦
          rw (found, count_link)
            (count_result-IsConsistent l.role (result_of run groups facts l g) t c)
    ]

    tally-platforms :
        (t : Tally) (ls : List ModuleLink)
        → passes (tally run groups facts t ls).platforms
          ≡ passes t.platforms ++ linked is_platform ls facts
    unfolding tally
    tally-platforms t [] = sym (append-nil (passes t.platforms))
    tally-platforms t (l ∷ ls) =
        tally-platforms (count_link run groups facts l t) ls
        ∙ rw (count_link-platforms l t) (
            append_assoc (passes t.platforms)
              (linked_one facts (is_platform l.role) (lookup l.group_id groups))
              (linked is_platform ls facts))

    tally-requirements :
        (t : Tally) (ls : List ModuleLink)
        → passes (tally run groups facts t ls).requirements
          ≡ passes t.requirements ++ linked is_requirement ls facts
    unfolding tally
    tally-requirements t [] = sym (append-nil (passes t.requirements))
    tally-requirements t (l ∷ ls) =
        tally-requirements (count_link run groups facts l t) ls
        ∙ rw (count_link-requirements l t) (
            append_assoc (passes t.requirements)
              (linked_one facts (is_requirement l.role) (lookup l.group_id groups))
              (linked is_requirement ls facts))

    tally-IsConsistent :
        (t : Tally) (ls : List ModuleLink)
        → IsConsistent t
        → IsConsistent (tally run groups facts t ls)
    unfolding tally
    tally-IsConsistent t [] c = c
    tally-IsConsistent t (l ∷ ls) c =
        tally-IsConsistent (count_link run groups facts l t) ls (count_link-IsConsistent l t c)

start-IsConsistent : IsConsistent start
start-IsConsistent = record {
  plat_any = refl;
  plat_unknown = refl;
  req_fail = refl;
  req_unknown = refl;
}

-- A module is ineligible if its platform groups or its requirement groups fail, eligible if both
-- pass, and else unknown. The platform groups pass together if there is none, and are a three-valued
-- disjunction otherwise; the requirement groups are a conjunction; links to missing groups do not
-- count.
pub eligible_links-status :
    {F : Type 0} (run : Runtime F) (groups : Dict ℕ Group) (facts : Facts) (links : List ModuleLink)
    → (eligible_links run groups facts links).status
      ≡ status_of
          (agnostic (linked run groups is_platform links facts))
          (every (linked run groups is_requirement links facts))
unfolding eligible_links
eligible_links-status run groups facts links =
    let c = tally-IsConsistent run groups facts start links start-IsConsistent in
    ap₂ status_of
      (platform_verdict-agnostic (tally run groups facts start links) c
        ∙ ap agnostic (tally-platforms run groups facts start links))
      (requirement_verdict-every (tally run groups facts start links) c
        ∙ ap every (tally-requirements run groups facts start links))
