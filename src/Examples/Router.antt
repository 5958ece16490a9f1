-- ===== src/Examples/Router.antt =====
-- Requests to the read-only API.
use ponshot.Base.{◌≡◌, ℕ, refl, some, none, [], ◌∷◌, List, Option, if◌then◌else◌}
use ponshot.Base.Text.{Text, codes, includes, starts_with, to_lower}
use ponshot.Api.Router.{
  Route, Handled, Method, Response, Request, Json, json, thrown, of_error, segments_of,
  segments_from, by_method, respond, send, handle, dispatch, match_route, match_from, status_of,
}
use ponshot.Api.Router.Answered.{Answers, Decodes, handle-Answers}

-- A decoder of texts without escapes, which refuses the others.
abbrev decode : Text → Option Text
unfolding includes
decode t = if includes t (codes "%") then none else some t

abbrev routes : List Route
routes =
    record {
      pattern = codes "prediction" ∷ codes "rounds" ∷ codes ":epoch" ∷ [];
      handler = λ params. Handled.failed (codes "Round not found");
    }
    ∷ []

-- A reader of URLs that refuses those that start with two slashes, and takes the others as paths.
abbrev pathname : Text → Text → Option Text
unfolding starts_with
pathname url base = if starts_with url (codes "//") then none else some url

abbrev stringify : ℕ → Json
stringify b = json (codes "{}")

abbrev request : Text → Request
request url = record { method = Method.get; url = some url; host = none }

abbrev round_7 : Text
round_7 = codes "/prediction/rounds/7"

round_7_segments : segments_of round_7 ≡ codes "prediction" ∷ codes "rounds" ∷ codes "7" ∷ []
unfolding segments_of segments_from
round_7_segments = refl

round_7-Decodes : Decodes decode (segments_of round_7)
unfolding segments_of segments_from includes starts_with
round_7-Decodes = ((_, refl), ((_, refl), ((_, refl), tt)))

handle-Answers_example :
    Answers routes (segments_of round_7) (handle pathname decode stringify routes (request round_7))
unfolding starts_with
handle-Answers_example =
    handle-Answers pathname decode stringify routes (request round_7) round_7 refl refl
      round_7-Decodes ((λ params b e. (codes "{}", refl)), tt)

absent_round :
    handle pathname decode stringify routes (request round_7)
    ≡ Response.replied 404 (of_error (codes "Round not found"))
unfolding handle by_method dispatch respond send match_route match_from status_of includes
    starts_with to_lower segments_of segments_from
absent_round = refl

-- A broken escape in the path, a URL that cannot be read, and a body that has no JSON text are each
-- thrown outside the `try`, or again in its `catch`.
broken_escape :
    handle pathname decode stringify routes (request (codes "/prediction/rounds/%E0"))
    ≡ Response.unanswered
unfolding handle by_method dispatch match_route match_from includes starts_with segments_of
    segments_from
broken_escape = refl

broken_url : handle pathname decode stringify routes (request (codes "//")) ≡ Response.unanswered
unfolding handle starts_with
broken_url = refl

broken_body : respond (λ b. thrown (codes "circular")) (Handled.body 1) ≡ Response.unanswered
unfolding respond send
broken_body = refl
