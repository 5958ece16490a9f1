-- ===== src/Api/Router/Answered.antt =====
-- What the router answers.
use ponshot.Base.{
  true, ℕ, Option, some, none, List, [], ◌∷◌, ◌++◌, ◌≡◌, All, arith, Option-cases, ◌⊎◌, Bool-cases,
  inl, length, inr, ◌==◌, refl, ap, ==_iff,
}
use ponshot.Base.Text.{Text, codes, same_text}
use ponshot.Api.Router.{
  Match, Params, match_from, set_param, match_route, Handled, dispatch, handle, param_name, respond,
  Route, Response, Method, Json, Request, send, by_method, segments_of, or_text, status_of, json,
  of_value, of_error,
}

abbrev pub Decodes : (Text → Option Text) → List Text → Type 0
Decodes decode segments = All (λ s. (v : Text) × (decode s ≡ some v)) segments

-- A segment of a pattern is a parameter, or the text of the path's segment.
abbrev FitsOne : Option Text → Text → Text → Type 0
FitsOne (some name) p s = Unit
FitsOne none p s = same_text p s ≡ true

-- A pattern and a path have as many segments, and fit in each.
abbrev pub Fits : List Text → List Text → Type 0
Fits [] [] = Unit
Fits [] (s ∷ ss) = ⊥
Fits (p ∷ ps) [] = ⊥
Fits (p ∷ ps) (s ∷ ss) = FitsOne (param_name p) p s × Fits ps ss

-- What the comparison of a pattern finds, where the segments decode.
abbrev Found : List Text → List Text → Match → Type 0
Found ps ss Match.no_match = ¬ Fits ps ss
Found ps ss Match.malformed = ⊥
Found ps ss (Match.matched params) = Fits ps ss

Found-more :
    (p s : Text) (ps ss : List Text) (m : Match)
    → FitsOne (param_name p) p s
    → Found ps ss m
    → Found (p ∷ ps) (s ∷ ss) m
Found-more p s ps ss Match.no_match one f = λ both. f both.1
Found-more p s ps ss Match.malformed one f = absurd f
Found-more p s ps ss (Match.matched params) one f = (one, f)

match_from-Found :
    (decode : Text → Option Text) (ps ss : List Text) (params : Params)
    → length ps ≡ length ss
    → Decodes decode ss
    → Found ps ss (match_from decode ps ss params)
unfolding match_from
match_from-Found decode [] [] params l d = tt
match_from-Found decode [] (s ∷ ss) params l d = absurd (omega (arith, l))
match_from-Found decode (p ∷ ps) [] params l d = absurd (omega (arith, l))
match_from-Found decode (p ∷ ps) (s ∷ ss) params l d = elim (Option-cases (param_name p)) [
  | inl literal ↦ elim (Bool-cases (same_text p s)) [
    | inl same ↦
        rw (match_from, literal, same)
          (Found-more p s ps ss _ (rw literal same)
            (match_from-Found decode ps ss params (omega (arith, l)) d.1))
    | inr other ↦
        rw (match_from, literal, other)
          (λ both.
            let one : same_text p s ≡ true = rw literal at both.0 in ground (arith, one, other))
  ]
  | inr (name, named) ↦
      rw (match_from, named, d.0.1)
        (Found-more p s ps ss _ (rw named tt)
          (match_from-Found decode ps ss (set_param name d.0.0 params) (omega (arith, l)) d.1))
]

Fits-length : (ps ss : List Text) → Fits ps ss → length ps ≡ length ss
Fits-length [] [] f = refl
Fits-length [] (s ∷ ss) f = absurd f
Fits-length (p ∷ ps) [] f = absurd f
Fits-length (p ∷ ps) (s ∷ ss) f = omega (arith, Fits-length ps ss f.1)

match_route-Found :
    (decode : Text → Option Text) (ps ss : List Text)
    → Decodes decode ss
    → Found ps ss (match_route decode ps ss)
unfolding match_route
match_route-Found decode ps ss d = elim (Bool-cases (length ps == length ss)) [
  | inl same ↦
      rw (match_route, same)
        (match_from-Found decode ps ss [] ((==_iff (length ps) (length ss)).0 same) d)
  | inr other ↦
      rw (match_route, other) (λ f. let same = Fits-length ps ss f in ground (arith, same, other))
]

-- Every body that a handler of the routes gives is a JSON text.
abbrev pub Writes : (ℕ → Json) → List Route → Type 0
Writes stringify routes =
    All
      (λ r.
        (params : Params) (b : ℕ)
        → r.handler params ≡ Handled.body b
        → (t : Text) × (stringify b ≡ json t))
      routes

-- The response to what a handler does.
abbrev pub Reports : Handled → Response → Type 0
Reports (Handled.body b) res = res ≡ Response.replied 200 (of_value b)
Reports (Handled.failed m) res = res ≡ Response.replied (status_of m) (of_error m)

-- The response is that of the first route that fits, or the one that there is none.
abbrev pub Answers : List Route → List Text → Response → Type 0
Answers routes segments res =
    (All (λ r. ¬ Fits r.pattern segments) routes
      × (res ≡ Response.replied 404 (of_error (codes "not found"))))
    ⊎ ((before : List Route) × (r : Route) × (after : List Route) × (params : Params) × (routes
          ≡ before ++ (r ∷ after))
        × All (λ r'. ¬ Fits r'.pattern segments) before
        × Fits r.pattern segments
        × Reports (r.handler params) res)

Answers-later :
    (r : Route) (rs : List Route) (segments : List Text) (res : Response)
    → ¬ Fits r.pattern segments
    → Answers rs segments res
    → Answers (r ∷ rs) segments res
Answers-later r rs segments res miss (inl (none_fits, e)) = inl ((miss, none_fits), e)
Answers-later r rs segments res miss (inr (before, first, after, params, cut, misses, hit, says)) =
    inr (r ∷ before, first, after, params, ap (λ xs. r ∷ xs) cut, (miss, misses), hit, says)

respond-Reports :
    (stringify : ℕ → Json) (h : Handled)
    → ((b : ℕ) → h ≡ Handled.body b → (t : Text) × (stringify b ≡ json t))
    → Reports h (respond stringify h)
unfolding respond send
respond-Reports stringify (Handled.body b) w = rw ((w b refl).1) refl
respond-Reports stringify (Handled.failed m) w = refl

Match-cases :
    (m : Match)
    → (m ≡ Match.no_match) ⊎ (m ≡ Match.malformed) ⊎ ((ps : Params) × (m ≡ Match.matched ps))
Match-cases Match.no_match = inl refl
Match-cases Match.malformed = inr (inl refl)
Match-cases (Match.matched ps) = inr (inr (ps, refl))

dispatch-Answers :
    (decode : Text → Option Text) (stringify : ℕ → Json) (routes : List Route)
    (segments : List Text)
    → Decodes decode segments
    → Writes stringify routes
    → Answers routes segments (dispatch decode stringify routes segments)
unfolding dispatch send
dispatch-Answers decode stringify [] segments d w = inl (tt, refl)
dispatch-Answers decode stringify (r ∷ rs) segments d w =
    let found = match_route-Found decode r.pattern segments d in
    elim (Match-cases (match_route decode r.pattern segments)) [
      | inl miss ↦
          rw (dispatch, miss)
            (Answers-later r rs segments _ (rw miss at found)
              (dispatch-Answers decode stringify rs segments d w.1))
      | inr (inl bad) ↦ absurd (rw bad at found)
      | inr (inr (ps, hit)) ↦
          rw (dispatch, hit)
            (inr (
              [],
              r,
              rs,
              ps,
              refl,
              tt,
              rw hit at found,
              respond-Reports stringify (r.handler ps) (w.0 ps),
            ))
    ]

-- A GET whose URL can be read by the header `Host`, whose path's segments all decode, and whose
-- routes' bodies all have a JSON text, is answered: by the first route whose pattern fits the path in
-- every segment, with its handler's body and 200 or with the message of its exception and the status
-- that goes with it, and by a 404 if no pattern fits.
pub handle-Answers :
    (pathname : Text → Text → Option Text) (decode : Text → Option Text) (stringify : ℕ → Json)
    (routes : List Route) (req : Request) (path : Text)
    → req.method ≡ Method.get
    → pathname
        (or_text (codes "/") req.url)
        (codes "http://" ++ or_text (codes "localhost") req.host)
      ≡ some path
    → Decodes decode (segments_of path)
    → Writes stringify routes
    → Answers routes (segments_of path) (handle pathname decode stringify routes req)
unfolding handle by_method
handle-Answers pathname decode stringify routes req path get valid d w =
    rw (handle, valid, by_method, get)
      (dispatch-Answers decode stringify routes (segments_of path) d w)
