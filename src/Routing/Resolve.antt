-- ===== src/Routing/Resolve.antt =====
-- Which route a request resolves to.
use api_test.Prelude.{
  ◌≡◌, refl, ◌∙◌, Bool, true, false, not, ◌&&◌, ◌||◌, List, [], ◌∷◌, Bool-cases, inl, inr, arith,
}
use api_test.Std.Text.{Text, str_eq, eq_of_str_eq, str_eq_refl}
use api_test.Routing.Registry.{
  RouteEntry, Registry, is_wildcard, match_segments, first_route, route_for_request,
  split_path_segments,
}

-- Whether some path matches both patterns.
unfoldable pub overlap : List Text → List Text → Bool
overlap [] [] = true
overlap (p ∷ ps) (q ∷ qs) = (is_wildcard p || is_wildcard q || str_eq p q) && overlap ps qs
overlap _ _ = false

match_segments-overlap :
    (ps qs rs : List Text)
    → match_segments ps rs ≡ true
    → match_segments qs rs ≡ true
    → overlap ps qs ≡ true
unfolding match_segments overlap
match_segments-overlap [] [] [] hp hq = refl
match_segments-overlap (p ∷ ps) (q ∷ qs) (r ∷ rs) hp hq =
    ground
      (arith, match_segments-overlap ps qs rs, eq_of_str_eq p r, eq_of_str_eq q r, str_eq_refl r)
match_segments-overlap [] (q ∷ qs) [] hp hq = cc
match_segments-overlap (p ∷ ps) [] [] hp hq = cc
match_segments-overlap [] _ (r ∷ rs) hp hq = cc
match_segments-overlap (p ∷ ps) [] (r ∷ rs) hp hq = cc
match_segments-overlap (p ∷ ps) (q ∷ qs) [] hp hq = cc

-- A member of a list, by its place.
pub data Mem {ℓ} {A : Type ℓ} (a : A) : List A → Type ℓ where
  here : (xs : List A) → Mem a (a ∷ xs)
  there : (b : A) {xs : List A} → Mem a xs → Mem a (b ∷ xs)

unfoldable pub clash : RouteEntry → RouteEntry → Bool
unfolding overlap
clash e f = str_eq e.meta.method f.meta.method && overlap e.segs f.segs

unfoldable pub clashes : RouteEntry → List RouteEntry → Bool
unfolding clash
clashes e [] = false
clashes e (f ∷ fs) = clash e f || clashes e fs

-- No two routes for one method match a common path.
unfoldable pub unambiguous : List RouteEntry → Bool
unfolding clashes
unambiguous [] = true
unambiguous (e ∷ es) = not (clashes e es) && unambiguous es

-- Whether the entry's route is for this method and path.
unfoldable pub serves : RouteEntry → Text → List Text → Bool
serves e method segs = str_eq e.meta.method method && match_segments e.segs segs

serves-clash :
    (e f : RouteEntry) (method : Text) (segs : List Text)
    → serves e method segs ≡ true
    → serves f method segs ≡ true
    → clash e f ≡ true
unfolding serves clash
serves-clash e f method segs he hf = ground (
  arith,
  match_segments-overlap e.segs f.segs segs,
  eq_of_str_eq e.meta.method method,
  eq_of_str_eq f.meta.method method,
  str_eq_refl method,
)

clashes-Mem :
    (e f : RouteEntry) (fs : List RouteEntry) → Mem f fs → clash e f ≡ true → clashes e fs ≡ true
unfolding clashes
clashes-Mem e f _ (here fs) h = rw h
clashes-Mem e f _ (there g {xs} m) h = elim (Bool-cases (clash e g)) [
  | inl hit ↦ rw hit refl
  | inr miss ↦ rw miss (clashes-Mem e f xs m h)
]

first_route-serves :
    (e : RouteEntry) (es : List RouteEntry) (method : Text) (segs : List Text)
    → serves e method segs ≡ true
    → first_route method segs (e ∷ es) ≡ (e.group, e.meta.name)
unfolding first_route serves
first_route-serves e es method segs h = rw h

first_route_skip :
    (e : RouteEntry) (es : List RouteEntry) (method : Text) (segs : List Text)
    → serves e method segs ≡ false
    → first_route method segs (e ∷ es) ≡ first_route method segs es
unfolding first_route serves
first_route_skip e es method segs h = rw h

-- Where no two routes clash, a request resolves to the route that serves it, wherever that stands.
first_route-Mem :
    (e : RouteEntry) (es : List RouteEntry) (method : Text) (segs : List Text)
    → unambiguous es ≡ true
    → Mem e es
    → serves e method segs ≡ true
    → first_route method segs es ≡ (e.group, e.meta.name)
unfolding unambiguous
first_route-Mem e _ method segs clear (here es) h = first_route-serves e es method segs h
first_route-Mem e _ method segs clear (there f {xs} m) h =
    elim (Bool-cases (serves f method segs)) [
      | inl hit ↦
          absurd (grind (arith, clear, clashes-Mem f e xs m (serves-clash f e method segs hit h)))
      | inr miss ↦
          first_route_skip f xs method segs miss
          ∙ first_route-Mem e xs method segs (ground arith) m h
    ]

pub route_for_request-Mem :
    (r : Registry) (e : RouteEntry) (method path : Text)
    → unambiguous r.flat ≡ true
    → Mem e r.flat
    → serves e method (split_path_segments path) ≡ true
    → route_for_request r method path ≡ (e.group, e.meta.name)
unfolding route_for_request
route_for_request-Mem r e method path clear m h =
    first_route-Mem e r.flat method (split_path_segments path) clear m h
