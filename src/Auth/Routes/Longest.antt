-- ===== src/Auth/Routes/Longest.antt =====
-- `RoutePermissionKey` and the longest of the prefixes that match.
use pluris.Prelude.{
  ◌≤◌, String, true, ◌&&◌, List, [], ◌∷◌, ltb, string_eq, In, ◌≡◌, ◌⊎◌, inl, inr, refl, arith,
  Bool-cases, ap,
}
use pluris.Conditions.Text.{has_prefix}
use pluris.Auth.Routes.{text_length, routes, better, best_match, route_permission_key}

-- `best` is an entry of the list that matches, and none that matches is longer.
pub record IsLongest (path : String) (entries : List (String × String)) (best : String × String)
    : Type 0 where
  pub listed : In best entries
  pub matches : has_prefix path best.0 ≡ true
  pub longest :
      (e : String × String)
      → In e entries
      → has_prefix path e.0 ≡ true
      → text_length e.0 ≤ text_length best.0

module _ (path : String) where
  better-grows :
      (e best : String × String) → text_length best.0 ≤ text_length (better path e best).0
  better-grows e best = ground arith

  better-covers :
      (e best : String × String)
      → has_prefix path e.0 ≡ true
      → text_length e.0 ≤ text_length (better path e best).0
  better-covers e best h = ground arith

  best_match-grows :
      (es : List (String × String)) (best : String × String)
      → text_length best.0 ≤ text_length (best_match path es best).0
  unfolding best_match
  best_match-grows [] best = ground arith
  best_match-grows (e ∷ es) best =
      omega (arith, better-grows e best, best_match-grows es (better path e best))

  best_match-covers :
      (es : List (String × String)) (best e : String × String)
      → In e es
      → has_prefix path e.0 ≡ true
      → text_length e.0 ≤ text_length (best_match path es best).0
  unfolding best_match
  best_match-covers [] best e h m = absurd h
  best_match-covers (f ∷ es) best e (inl now) m = omega (
    arith,
    better-covers f best (rw now at m),
    best_match-grows es (better path f best),
    ap (λ g. text_length g.0) now,
  )
  best_match-covers (f ∷ es) best e (inr later) m =
      best_match-covers es (better path f best) e later m

  -- The loop keeps what it started with, or ends in an entry that matches and is longer.
  best_match_cases :
      (es : List (String × String)) (best : String × String)
      → (best_match path es best ≡ best)
        ⊎ (In (best_match path es best) es × (has_prefix path (best_match path es best).0 ≡ true))
  unfolding best_match
  best_match_cases [] best = inl refl
  best_match_cases (e ∷ es) best = elim (best_match_cases es (better path e best)) [
    | inr (listed, matches) ↦ inr (inr listed, matches)
    | inl stays ↦
        elim (Bool-cases (has_prefix path e.0 && ltb (text_length best.0) (text_length e.0))) [
          | inl wins ↦
              let won : best_match path es (better path e best) ≡ e = ground arith in
              inr (inl won, ground arith)
          | inr loses ↦ inl (ground arith)
        ]
  ]

some_match :
    (path : String) (best : String × String)
    → has_prefix path "/" ≡ true
    → best_match path routes ("", "") ≡ best
    → 1 ≤ text_length best.0
unfolding text_length
some_match path best rooted e =
    let covered = best_match-covers path routes ("", "") ("/", "") (inl refl) rooted in
    omega (arith, covered, ap (λ b. text_length b.0) e)

empty_length : text_length "" ≡ 0
unfolding text_length
empty_length = refl

-- The permission that a path asks for is the key of its longest registered prefix, if the path starts
-- with "/", the shortest of the registered prefixes.
pub route_permission_key-IsLongest :
    (path : String)
    → has_prefix path "/" ≡ true
    → (best : String × String) × IsLongest path routes best × (route_permission_key path ≡ best.1)
unfolding route_permission_key
route_permission_key-IsLongest path rooted = elim (best_match_cases path routes ("", "")) [
  | inl stays ↦ absurd (omega (arith, some_match path _ rooted stays, empty_length))
  | inr (listed, matches) ↦ (
    best_match path routes ("", ""),
    record {
      listed = listed;
      matches = matches;
      longest = λ e h m. best_match-covers path routes ("", "") e h m;
    },
    refl,
  )
]
