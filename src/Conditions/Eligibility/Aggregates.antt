-- ===== src/Conditions/Eligibility/Aggregates.antt =====
-- The variables of the loop of `Eligible` against the three-valued disjunction and conjunction.
use pluris.Prelude.{
  Bool, true, List, [], ◌∷◌, ◌++◌, if◌then◌else◌, any, id_eq, ◌≡◌, refl, ap, arith,
}
use pluris.Conditions.{Verdict, pass, fail, unknown}
use pluris.Conditions.Kleene.{every, some_of}
use pluris.Conditions.Eligibility.{
  Role, role_platform, role_requirement, role_other, GroupResult, Tally, is_verdict, count_result,
  platform_verdict, requirement_verdict,
}

abbrev pub passes : List GroupResult → List Verdict
passes [] = []
passes (r ∷ rs) = r.pass ∷ passes rs

pub passes-snoc :
    (rs : List GroupResult) (r : GroupResult) → passes (rs ++ r ∷ []) ≡ passes rs ++ r.pass ∷ []
passes-snoc [] r = refl
passes-snoc (s ∷ rs) r = ap (λ t. s.pass ∷ t) (passes-snoc rs r)

any-snoc :
    (p : Verdict → Bool) (vs : List Verdict) (v : Verdict)
    → any p (vs ++ v ∷ []) ≡ (if p v then true else any p vs)
any-snoc p [] v = ground arith
any-snoc p (w ∷ vs) v = ground (arith, any-snoc p vs v)

-- The flags say what stands in the lists of results.
pub record IsConsistent (t : Tally) : Type 0 where
  pub plat_any : t.plat_any ≡ any (is_verdict pass) (passes t.platforms)
  pub plat_unknown : t.plat_unknown ≡ any (is_verdict unknown) (passes t.platforms)
  pub req_fail : t.req_fail ≡ any (is_verdict fail) (passes t.requirements)
  pub req_unknown : t.req_unknown ≡ any (is_verdict unknown) (passes t.requirements)

is_verdict_comm : (v w : Verdict) → is_verdict v w ≡ is_verdict w v
is_verdict_comm v w = ground arith

flag-snoc :
    (w : Verdict) (rs : List GroupResult) (r : GroupResult) (flag : Bool)
    → flag ≡ any (is_verdict w) (passes rs)
    → (if is_verdict r.pass w then true else flag) ≡ any (is_verdict w) (passes (rs ++ r ∷ []))
flag-snoc w rs r flag e =
    rw (passes-snoc rs r, any-snoc (is_verdict w) (passes rs) r.pass, is_verdict_comm w r.pass, e)

pub count_result-IsConsistent :
    (role : Role) (r : GroupResult) (t : Tally)
    → IsConsistent t
    → IsConsistent (count_result role r t)
unfolding count_result
count_result-IsConsistent role_platform r t c = record {
  plat_any = flag-snoc pass t.platforms r t.plat_any c.plat_any;
  plat_unknown = flag-snoc unknown t.platforms r t.plat_unknown c.plat_unknown;
  req_fail = c.req_fail;
  req_unknown = c.req_unknown;
}
count_result-IsConsistent role_requirement r t c = record {
  plat_any = c.plat_any;
  plat_unknown = c.plat_unknown;
  req_fail = flag-snoc fail t.requirements r t.req_fail c.req_fail;
  req_unknown = flag-snoc unknown t.requirements r t.req_unknown c.req_unknown;
}
count_result-IsConsistent role_other r t c = c

-- no platform group at all passes
abbrev pub agnostic : List Verdict → Verdict
agnostic [] = pass
agnostic (v ∷ vs) = some_of (v ∷ vs)

some_of-flags :
    (vs : List Verdict)
    → some_of vs ≡ (
        if any (is_verdict pass) vs
        then pass
        else if any (is_verdict unknown) vs
        then unknown
        else fail)
some_of-flags [] = refl
some_of-flags (v ∷ vs) = ground (arith, some_of-flags vs)

every-flags :
    (vs : List Verdict)
    → every vs ≡ (
        if any (is_verdict fail) vs
        then fail
        else if any (is_verdict unknown) vs
        then unknown
        else pass)
every-flags [] = refl
every-flags (v ∷ vs) = ground (arith, every-flags vs)

pub platform_verdict-agnostic :
    (t : Tally) → IsConsistent t → platform_verdict t ≡ agnostic (passes t.platforms)
platform_verdict-agnostic t c = go t.platforms c.plat_any c.plat_unknown
  where
    go :
        (rs : List GroupResult)
        → t.plat_any ≡ any (is_verdict pass) (passes rs)
        → t.plat_unknown ≡ any (is_verdict unknown) (passes rs)
        → platform_verdict (record t { platforms = rs }) ≡ agnostic (passes rs)
    go [] e e' = refl
    go (r ∷ rs) e e' = rw (some_of-flags (passes (r ∷ rs)), e, e')

pub requirement_verdict-every :
    (t : Tally) → IsConsistent t → requirement_verdict t ≡ every (passes t.requirements)
requirement_verdict-every t c = go t.requirements c.req_fail c.req_unknown
  where
    go :
        (rs : List GroupResult)
        → t.req_fail ≡ any (is_verdict fail) (passes rs)
        → t.req_unknown ≡ any (is_verdict unknown) (passes rs)
        → requirement_verdict (record t { requirements = rs }) ≡ every (passes rs)
    go [] e e' = refl
    go (r ∷ rs) e e' = rw (every-flags (passes (r ∷ rs)), e, e')
