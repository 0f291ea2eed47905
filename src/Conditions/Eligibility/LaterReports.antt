-- ===== src/Conditions/Eligibility/LaterReports.antt =====
-- What later reports can change of a module's status.
use pluris.Prelude.{
  ℕ, Bool, true, false, Option, none, some, List, [], ◌∷◌, ◌++◌, Dict, lookup, id_eq, ◌≡◌, ◌⊎◌, inr,
  refl, arith,
}
use pluris.Conditions.{Verdict, Group, Facts, Runtime}
use pluris.Conditions.Kleene.{every, some_of}
use pluris.Conditions.Reports.{Settles, Extends, eval_group-Settles, both-Settles, either-Settles}
use pluris.Conditions.Eligibility.{Role, status_unknown, ModuleLink, status_of, eligible_links}
use pluris.Conditions.Eligibility.Aggregates.{agnostic}
use pluris.Conditions.Eligibility.Verdicts.{
  linked, linked_one, is_platform, is_requirement, eligible_links-status,
}

-- two lists of verdicts, settled one by one
abbrev AllSettle : List Verdict → List Verdict → Type 0
AllSettle [] [] = Unit
AllSettle (v ∷ vs) (w ∷ ws) = Settles v w × AllSettle vs ws
AllSettle _ _ = ⊥

some_of-AllSettle : (vs ws : List Verdict) → AllSettle vs ws → Settles (some_of vs) (some_of ws)
some_of-AllSettle [] [] h = inr refl
some_of-AllSettle (v ∷ vs) (w ∷ ws) (h, hs) =
    either-Settles v w (some_of vs) (some_of ws) h (some_of-AllSettle vs ws hs)
some_of-AllSettle [] (w ∷ ws) h = absurd h
some_of-AllSettle (v ∷ vs) [] h = absurd h

every-AllSettle : (vs ws : List Verdict) → AllSettle vs ws → Settles (every vs) (every ws)
every-AllSettle [] [] h = inr refl
every-AllSettle (v ∷ vs) (w ∷ ws) (h, hs) =
    both-Settles v w (every vs) (every ws) h (every-AllSettle vs ws hs)
every-AllSettle [] (w ∷ ws) h = absurd h
every-AllSettle (v ∷ vs) [] h = absurd h

agnostic-AllSettle : (vs ws : List Verdict) → AllSettle vs ws → Settles (agnostic vs) (agnostic ws)
agnostic-AllSettle [] [] h = inr refl
agnostic-AllSettle (v ∷ vs) (w ∷ ws) h = some_of-AllSettle (v ∷ vs) (w ∷ ws) h
agnostic-AllSettle [] (w ∷ ws) h = absurd h
agnostic-AllSettle (v ∷ vs) [] h = absurd h

status_of-Settles :
    (p p' r r' : Verdict)
    → Settles p p'
    → Settles r r'
    → (status_of p r ≡ status_unknown) ⊎ (status_of p r ≡ status_of p' r')
status_of-Settles p p' r r' h k = ground arith

module _ {F : Type 0} (run : Runtime F) (groups : Dict ℕ Group) (facts later : Facts)
    (more : Extends facts later) where
  step-AllSettle :
      (counts : Bool) (found : Option Group) (vs ws : List Verdict)
      → AllSettle vs ws
      → AllSettle
          (linked_one run groups facts counts found ++ vs)
          (linked_one run groups later counts found ++ ws)
  step-AllSettle counts none vs ws h = h
  step-AllSettle true (some g) vs ws h = (eval_group-Settles run g facts later more, h)
  step-AllSettle false (some g) vs ws h = h

  linked-AllSettle :
      (counts : Role → Bool) (ls : List ModuleLink)
      → AllSettle (linked run groups counts ls facts) (linked run groups counts ls later)
  linked-AllSettle counts [] = tt
  linked-AllSettle counts (l ∷ ls) =
      step-AllSettle (counts l.role) (lookup l.group_id groups) _ _ (linked-AllSettle counts ls)

-- A module that is eligible or ineligible on the facts reported so far stays so whatever else is
-- reported later, as long as no reported fact changes.
pub eligible_links-Settles :
    {F : Type 0} (run : Runtime F) (groups : Dict ℕ Group) (links : List ModuleLink)
    (facts later : Facts)
    → Extends facts later
    → ((eligible_links run groups facts links).status ≡ status_unknown)
      ⊎ ((eligible_links run groups facts links).status
          ≡ (eligible_links run groups later links).status)
eligible_links-Settles run groups links facts later more =
    rw (eligible_links-status run groups facts links, eligible_links-status run groups later links)
      (status_of-Settles _ _ _ _
        (agnostic-AllSettle _ _ (linked-AllSettle run groups facts later more is_platform links))
        (every-AllSettle _ _ (linked-AllSettle run groups facts later more is_requirement links)))
