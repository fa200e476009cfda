-- ===== src/Audit/Newest.antt =====
-- What the first of the sorted events have over the others.
use api_test.Prelude.{
  ℕ, zero, suc, ◌≤◌, ◌≡◌, refl, ap, false, List, [], ◌∷◌, ◌++◌, All, take, drop, arith,
}
use api_test.Audit.Event.{Event}
use api_test.Audit.Memory.{comes_before}
use api_test.Audit.Sorted.{IsSorted}

comes_before-le : (a b : Event) → comes_before b a ≡ false → b.timestamp ≤ a.timestamp
unfolding comes_before
comes_before-le a b h = ground arith

-- The event is no older than any of the list.
abbrev pub NoOlder : List Event → Event → Type 0
NoOlder es a = All (λ (b : Event). b.timestamp ≤ a.timestamp) es

NoOlder-trans :
    (a b : Event) (es : List Event) → b.timestamp ≤ a.timestamp → NoOlder es b → NoOlder es a
NoOlder-trans a b [] h hs = tt
NoOlder-trans a b (e ∷ es) h (first, hs) = (omega arith, NoOlder-trans a b es h hs)

IsSorted-NoOlder : (a : Event) (es : List Event) → IsSorted (a ∷ es) → NoOlder es a × IsSorted es
unfolding IsSorted
IsSorted-NoOlder a [] h = (tt, tt)
IsSorted-NoOlder a (b ∷ es) (ab, h) =
    let ba = comes_before-le a b ab in
    let (rest, _) = IsSorted-NoOlder b es h in ((ba, NoOlder-trans a b es ba rest), h)

NoOlder-drop : (a : Event) (n : ℕ) (es : List Event) → NoOlder es a → NoOlder (drop n es) a
NoOlder-drop a zero es h = h
NoOlder-drop a (suc n) [] h = tt
NoOlder-drop a (suc n) (e ∷ es) (_, h) = NoOlder-drop a n es h

pub newest_first : (n : ℕ) (es : List Event) → IsSorted es → All (NoOlder (drop n es)) (take n es)
newest_first zero es h = tt
newest_first (suc n) [] h = tt
newest_first (suc n) (e ∷ es) h =
    let (older, rest) = IsSorted-NoOlder e es h in
    (NoOlder-drop e n es older, newest_first n es rest)

pub take-append_drop : (n : ℕ) (es : List Event) → take n es ++ drop n es ≡ es
take-append_drop zero es = refl
take-append_drop (suc n) [] = refl
take-append_drop (suc n) (e ∷ es) = ap (λ r. e ∷ r) (take-append_drop n es)
