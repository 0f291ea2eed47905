-- ===== src/Lifecycle/Course.antt =====
-- The course of a module version, and what a change of the tables keeps.
use pluris.Prelude.{
  ℕ, ◌≤◌, ◌<◌, Bool, true, false, ◌&&◌, List, nat_eq, In, ◌≡◌, refl, ◌∙◌, ◌⊎◌, inl, inr, arith,
}
use pluris.Lifecycle.{
  State, draft, published, superseded, revoked, Version, Script, Action, Condition, Module, Tables,
  is_draft, is_published, has_id,
}
use pluris.Lifecycle.Queries.{count}
use pluris.Lifecycle.Queries.Contents.{scripts_of, actions_of}
use pluris.Lifecycle.Queries.Applicability.{conditions_of}
use pluris.Lifecycle.Versions.{has_apply}

pub data Step : State → State → Type 0 where
  publishes : Step draft published
  is_succeeded : Step published superseded
  is_withdrawn : Step published revoked
  is_retired : Step superseded revoked

pub data Course : State → State → Type 0 where
  stays : {s : State} → Course s s
  moves : {s u w : State} → Step s u → Course u w → Course s w

pub Course-trans : {s u w : State} → Course s u → Course u w → Course s w
Course-trans stays c = c
Course-trans (moves step b) c = moves step (Course-trans b c)

-- What belongs to a version.
pub record Contents : Type 0 where
  pub scripts : List Script
  pub actions : List Action
  pub conditions : List Condition

abbrev pub contents_of : ℕ → Tables → Contents
contents_of i t = record {
  scripts = scripts_of i t.scripts;
  actions = actions_of i t.actions;
  conditions = conditions_of i t.conditions;
}

-- Nothing but the state, the name of the successor and the manifest that an export caches differs.
abbrev pub Frozen : Version → Version → Type 0
Frozen v w = w ≡ record v {
  state = w.state;
  superseded_by_version = w.superseded_by_version;
  manifest = record v.manifest { manifest_yaml = w.manifest.manifest_yaml };
}

-- `w`, a row of the later tables, is what has become of `v`.
pub record Follows (t t' : Tables) (v w : Version) : Type 0 where
  pub same_id : w.id ≡ v.id
  pub same_module : w.module_id ≡ v.module_id
  pub course : Course v.state w.state
  pub frozen : is_draft v.state ≡ false → Frozen v w × (contents_of v.id t' ≡ contents_of v.id t)

-- Each version of the later tables follows one of the earlier tables, or was created since.
abbrev pub Comes : Tables → Tables → Version → Type 0
Comes t t' w =
    ((v : Version) × In v t.versions × Follows t t' v w)
    ⊎ ((t.next_version ≤ w.id) × Course draft w.state)

pub record Evolves (t t' : Tables) : Type 0 where
  pub ids_grow : t.next_version ≤ t'.next_version
  pub comes : (w : Version) → In w t'.versions → Comes t t' w

abbrev pub is_current : ℕ → Version → Bool
is_current m v = nat_eq v.module_id m && is_published v.state

pub record Sound (t : Tables) : Type 0 where
  pub ids_bounded : (v : Version) → In v t.versions → v.id < t.next_version
  pub ids_distinct : (i : ℕ) → count (has_id i) t.versions ≤ 1
  pub one_published : (m : ℕ) → count (is_current m) t.versions ≤ 1
  pub applicable :
      (v : Version)
      → In v t.versions
      → is_draft v.state ≡ false
      → has_apply (scripts_of v.id t.scripts) ≡ true
  pub modules_bounded : (r : Module) → In r t.modules → r.id < t.next_module
  pub owners_bounded : (v : Version) → In v t.versions → v.module_id < t.next_module

Course-leaves : {s u : State} → Course s u → is_draft s ≡ false → is_draft u ≡ false
Course-leaves stays e = e
Course-leaves (moves publishes c) e = Course-leaves c refl
Course-leaves (moves is_succeeded c) e = Course-leaves c refl
Course-leaves (moves is_withdrawn c) e = Course-leaves c refl
Course-leaves (moves is_retired c) e = Course-leaves c refl

Follows-refl : (t : Tables) (v : Version) → Follows t t v v
Follows-refl t v = record {
  same_id = refl;
  same_module = refl;
  course = stays;
  frozen = λ e. (refl, refl);
}

pub Evolves-refl : (t : Tables) → Evolves t t
Evolves-refl t = record { ids_grow = omega arith; comes = λ w i. inl (w, i, Follows-refl t w) }

Frozen-trans :
    {t t' t'' : Tables} {u v w : Version}
    → Follows t t' u v
    → Follows t' t'' v w
    → is_draft u.state ≡ false
    → Frozen u w × (contents_of u.id t'' ≡ contents_of u.id t)
Frozen-trans f g e =
    let (a, b) = f.frozen e in
    let (c, d) = g.frozen (Course-leaves f.course e) in (cc, rw f.same_id at d ∙ b)

Follows-trans :
    {t t' t'' : Tables} {u v w : Version}
    → Follows t t' u v
    → Follows t' t'' v w
    → Follows t t'' u w
Follows-trans f g = record {
  same_id = g.same_id ∙ f.same_id;
  same_module = g.same_module ∙ f.same_module;
  course = Course-trans f.course g.course;
  frozen = Frozen-trans f g;
}

Comes-trans : {t t' t'' : Tables} {w : Version} → Evolves t t' → Comes t' t'' w → Comes t t'' w
Comes-trans e (inr (fresh, c)) = inr (omega (arith, e.ids_grow), c)
Comes-trans e (inl (v, i, g)) = elim (e.comes v i) [
  | inl (u, j, f) ↦ inl (u, j, Follows-trans f g)
  | inr (fresh, c) ↦ inr (omega (arith, g.same_id), Course-trans c g.course)
]

pub Evolves-trans : {t t' t'' : Tables} → Evolves t t' → Evolves t' t'' → Evolves t t''
Evolves-trans e e' = record {
  ids_grow = omega (arith, e.ids_grow, e'.ids_grow);
  comes = λ w i. Comes-trans e (e'.comes w i);
}

-- What every operation promises from sound tables.
abbrev pub Advances : Tables → Tables → Type 0
Advances t t' = Sound t' × Evolves t t'

pub Advances-refl : (t : Tables) → Sound t → Advances t t
Advances-refl t s = (s, Evolves-refl t)
