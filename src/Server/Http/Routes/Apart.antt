-- ===== src/Server/Http/Routes/Apart.antt =====
-- internal/server/http/http.go: no request fits two routes.
use gophprofile.Base.{
  ◌≤◌, ◌≡◌, refl, String, Bool, true, false, not, ◌&&◌, ◌||◌, List, [], ◌∷◌, any as any_of, arith,
  str_eq, eq_iff, count_if, Bool-cases, inl, inr,
}
use gophprofile.Server.Http.Routes.{
  Segment, lit, param, rest, Method, get, post, delete, any, Route, Deps, matches, routes,
  service_routes, api_routes, mount_web,
}

-- The method of a request; chi answers others by 405.
abbrev pub fits : Method → Method → Bool
fits any m = true
fits get get = true
fits post post = true
fits delete delete = true
fits _ _ = false

abbrev pub serves : Method → List String → Route → Bool
serves m parts r = fits r.method m && matches r.path parts

-- Two patterns that may fit one path.
overlap : List Segment → List Segment → Bool
overlap (rest ∷ p) q = true
overlap p (rest ∷ q) = true
overlap [] [] = true
overlap [] (s ∷ q) = false
overlap (s ∷ p) [] = false
overlap (lit a ∷ p) (lit b ∷ q) = str_eq a b && overlap p q
overlap (lit a ∷ p) (param b ∷ q) = overlap p q
overlap (param a ∷ p) (lit b ∷ q) = overlap p q
overlap (param a ∷ p) (param b ∷ q) = overlap p q

abbrev both_fit : Method → Method → Method → Bool
both_fit a b m = fits a m && fits b m

abbrev same_method : Method → Method → Bool
same_method a b = both_fit a b get || both_fit a b post || both_fit a b delete || both_fit a b any

matches-overlap :
    (p q : List Segment) (parts : List String)
    → matches p parts ≡ true
    → matches q parts ≡ true
    → overlap p q ≡ true
unfolding matches overlap
matches-overlap [] [] parts h g = refl
matches-overlap [] (rest ∷ q) parts h g = refl
matches-overlap [] (lit b ∷ q) [] h g = ground arith
matches-overlap [] (lit b ∷ q) (x ∷ parts) h g = ground arith
matches-overlap [] (param b ∷ q) [] h g = ground arith
matches-overlap [] (param b ∷ q) (x ∷ parts) h g = ground arith
matches-overlap (rest ∷ p) q parts h g = refl
matches-overlap (lit a ∷ p) [] [] h g = ground arith
matches-overlap (lit a ∷ p) [] (x ∷ parts) h g = ground arith
matches-overlap (lit a ∷ p) (rest ∷ q) parts h g = refl
matches-overlap (lit a ∷ p) (lit b ∷ q) [] h g = ground arith
matches-overlap (lit a ∷ p) (lit b ∷ q) (x ∷ parts) h g =
    ground (arith, eq_iff a x, eq_iff b x, eq_iff a b, matches-overlap p q parts)
matches-overlap (lit a ∷ p) (param b ∷ q) [] h g = ground arith
matches-overlap (lit a ∷ p) (param b ∷ q) (x ∷ parts) h g =
    ground (arith, matches-overlap p q parts)
matches-overlap (param a ∷ p) [] [] h g = ground arith
matches-overlap (param a ∷ p) [] (x ∷ parts) h g = ground arith
matches-overlap (param a ∷ p) (rest ∷ q) parts h g = refl
matches-overlap (param a ∷ p) (lit b ∷ q) [] h g = ground arith
matches-overlap (param a ∷ p) (lit b ∷ q) (x ∷ parts) h g =
    ground (arith, matches-overlap p q parts)
matches-overlap (param a ∷ p) (param b ∷ q) [] h g = ground arith
matches-overlap (param a ∷ p) (param b ∷ q) (x ∷ parts) h g = matches-overlap p q parts h g

fits-same_method : (a b m : Method) → fits a m ≡ true → fits b m ≡ true → same_method a b ≡ true
fits-same_method a b get h g = ground arith
fits-same_method a b post h g = ground arith
fits-same_method a b delete h g = ground arith
fits-same_method a b any h g = ground arith

abbrev may_meet : Route → Route → Bool
may_meet r q = same_method r.method q.method && overlap r.path q.path

serves-may_meet :
    (m : Method) (parts : List String) (r q : Route)
    → serves m parts r ≡ true
    → serves m parts q ≡ true
    → may_meet r q ≡ true
serves-may_meet m parts r q h g =
    ground (arith, fits-same_method r.method q.method m, matches-overlap r.path q.path parts)

all_apart : List Route → Bool
all_apart [] = true
all_apart (r ∷ rs) = not (any_of (may_meet r) rs) && all_apart rs

-- What serves a request beside a route that does may meet it.
none_beside :
    (m : Method) (parts : List String) (r : Route) (rs : List Route)
    → serves m parts r ≡ true
    → any_of (may_meet r) rs ≡ false
    → count_if (serves m parts) rs ≡ 0
none_beside m parts r [] h g = refl
none_beside m parts r (q ∷ rs) h g = elim (Bool-cases (serves m parts q)) [
  | inl served ↦ ground (arith, serves-may_meet m parts r q h served)
  | inr other ↦ rw other (omega (arith, none_beside m parts r rs h (ground arith)))
]

all_apart-count_if :
    (m : Method) (parts : List String) (rs : List Route)
    → all_apart rs ≡ true
    → count_if (serves m parts) rs ≤ 1
unfolding all_apart
all_apart-count_if m parts [] h = omega arith
all_apart-count_if m parts (r ∷ rs) h = elim (Bool-cases (serves m parts r)) [
  | inl served ↦ rw served (omega (arith, none_beside m parts r rs served (ground arith)))
  | inr other ↦ rw other (omega (arith, all_apart-count_if m parts rs (ground arith)))
]

routes_apart : (d : Deps) → all_apart (routes d) ≡ true
unfolding routes service_routes api_routes mount_web all_apart overlap
routes_apart d = elim (Bool-cases d.metrics_handler) [
  | inl with_metrics ↦ elim (Bool-cases d.web) [
    | inl with_web ↦ rw (with_metrics, with_web) refl
    | inr without ↦ rw (with_metrics, without) refl
  ]
  | inr no_metrics ↦ elim (Bool-cases d.web) [
    | inl with_web ↦ rw (no_metrics, with_web) refl
    | inr without ↦ rw (no_metrics, without) refl
  ]
]

-- At most one route serves a request, whatever is configured, so that the answer does not depend on
-- the order in which routes are tried.
pub routes-count_if :
    (d : Deps) (m : Method) (parts : List String) → count_if (serves m parts) (routes d) ≤ 1
routes-count_if d m parts = all_apart-count_if m parts (routes d) (routes_apart d)
