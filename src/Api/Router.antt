-- ===== src/Api/Router.antt =====
-- apps/api/src/router.ts: `match`, `send` and `Router.handle`. Parameters of the model are JavaScript's
-- `decodeURIComponent`, `none` where it throws; the `pathname` of `new URL(url, base)`, `none` where
-- that throws; and `JSON.stringify` of a handler's body, an opaque number, which may throw. The object
-- of an error's message is a JSON text always. A handler sees the parameters of its route.
pub mod Answered
use ponshot.Base.{
  ℕ, Bool, true, false, Option, none, some, List, [], ◌∷◌, ◌==◌, ◌++◌, ◌||◌, if◌then◌else◌, length,
}
use ponshot.Base.Text.{Text, codes, same_text, includes, to_lower}

abbrev pub Params : Type 0
Params = List (Text × Text)

-- How a handler ends: with a body, or by an exception with its message.
pub data Handled : Type 0 where
  body : ℕ → Handled
  failed : Text → Handled

pub record Route : Type 0 where
  pub pattern : List Text
  pub handler : Params → Handled

pub data Match : Type 0 where
  no_match malformed : Match
  matched : Params → Match

pub data Method : Type 0 where
  get options other : Method

-- A body: the value of a handler, or the object of an error's message.
pub data Content : Type 0 where
  of_value : ℕ → Content
  of_error : Text → Content

pub data Json : Type 0 where
  json : Text → Json
  thrown : Text → Json

-- What becomes of a request: `unanswered` is that the promise of `handle` rejects.
pub data Response : Type 0 where
  unanswered : Response
  no_content : Response
  replied : (status : ℕ) → Content → Response

-- `req`: its method, and its URL and the header `Host`, which may be missing.
pub record Request : Type 0 where
  pub method : Method
  pub url : Option Text
  pub host : Option Text

-- A property of an object, set anew or after the others.
abbrev pub set_param : Text → Text → Params → Params
set_param key value [] = (key, value) ∷ []
set_param key value ((k, v) ∷ ps) =
    if same_text k key then (k, value) ∷ ps else (k, v) ∷ set_param key value ps

-- The name of a parameter, after its colon.
abbrev pub param_name : Text → Option Text
param_name [] = none
param_name (c ∷ name) = if c == 58 then some name else none

-- The loop of `match`, with the parameters that are found.
unfoldable pub match_from : (Text → Option Text) → List Text → List Text → Params → Match
match_from decode [] segments params = Match.matched params
match_from decode (p ∷ ps) [] params = Match.no_match
match_from decode (p ∷ ps) (s ∷ ss) params = elim (param_name p) [
  | some name ↦ elim (decode s) [
    | some value ↦ match_from decode ps ss (set_param name value params)
    | none ↦ Match.malformed
  ]
  | none ↦ if same_text p s then match_from decode ps ss params else Match.no_match
]

unfoldable pub match_route : (Text → Option Text) → List Text → List Text → Match
unfolding match_from
match_route decode pattern segments =
    if length pattern == length segments
    then match_from decode pattern segments []
    else Match.no_match

-- The status by the message of an exception.
unfoldable pub status_of : Text → ℕ
unfolding includes to_lower
status_of message =
    let m = to_lower message in
    if includes m (codes "not found")
    then 404
    else if includes m (codes "invalid") || includes m (codes "bad ")
    then 400
    else 500

-- How `send` ends: with a response, or by an exception with its message.
pub data Sent : Type 0 where
  done : Response → Sent
  broke : Text → Sent

-- The exception of a second `writeHead`.
abbrev headers_sent : Text
headers_sent = codes "Cannot write headers after they are sent to the client"

abbrev write_text : ℕ → ℕ → Json → Sent
write_text status b (json t) = Sent.done (Response.replied status (of_value b))
write_text status b (thrown e) = Sent.broke e

abbrev end_with : (ℕ → Json) → ℕ → Content → Sent
end_with stringify status (of_error m) = Sent.done (Response.replied status (of_error m))
end_with stringify status (of_value b) = write_text status b (stringify b)

-- `send`: the head is written before the body's text is made, and `headed` is that a head has been
-- written already.
unfoldable pub send : (ℕ → Json) → (headed : Bool) → ℕ → Content → Sent
send stringify headed status content =
    if headed then Sent.broke headers_sent else end_with stringify status content

-- An exception of a `send` that stands in no `try`.
abbrev pub outside_try : Sent → Response
outside_try (Sent.done r) = r
outside_try (Sent.broke e) = Response.unanswered

-- The `catch` around a handler and the `send` of its body.
abbrev pub caught : (ℕ → Json) → (headed : Bool) → Text → Response
caught stringify headed m = outside_try (send stringify headed (status_of m) (of_error m))

abbrev pub tried : (ℕ → Json) → Sent → Response
tried stringify (Sent.done r) = r
tried stringify (Sent.broke e) = caught stringify true e

unfoldable pub respond : (ℕ → Json) → Handled → Response
unfolding send status_of
respond stringify (Handled.body b) = tried stringify (send stringify false 200 (of_value b))
respond stringify (Handled.failed m) = caught stringify false m

-- The loop over the routes.
unfoldable pub dispatch : (Text → Option Text) → (ℕ → Json) → List Route → List Text → Response
unfolding match_route respond send
dispatch decode stringify [] segments =
    outside_try (send stringify false 404 (of_error (codes "not found")))
dispatch decode stringify (r ∷ rs) segments = elim (match_route decode r.pattern segments) [
  | Match.no_match ↦ dispatch decode stringify rs segments
  | Match.malformed ↦ Response.unanswered
  | Match.matched params ↦ respond stringify (r.handler params)
]

-- A segment that has ended, left out if it is empty.
abbrev close : Text → List Text → List Text
close [] rest = rest
close (c ∷ t) rest = (c ∷ t) ∷ rest

-- `split("/").filter(Boolean)`, with the segment that is being read.
unfoldable pub segments_from : Text → Text → List Text
segments_from read [] = close read []
segments_from read (c ∷ t) =
    let after = segments_from [] t in
    let longer = segments_from (read ++ (c ∷ [])) t in if c == 47 then close read after else longer

unfoldable pub segments_of : Text → List Text
unfolding segments_from
segments_of path = segments_from [] path

abbrev pub or_text : Text → Option Text → Text
or_text t none = t
or_text t (some given) = given

unfoldable pub by_method :
    (Text → Option Text) → (ℕ → Json) → List Route → Method → List Text → Response
unfolding dispatch send
by_method decode stringify routes Method.get segments = dispatch decode stringify routes segments
by_method decode stringify routes Method.options segments = Response.no_content
by_method decode stringify routes Method.other segments =
    outside_try (send stringify false 405 (of_error (codes "this API is read-only")))

unfoldable pub handle :
    (pathname : Text → Text → Option Text)
    → (decode : Text → Option Text) → (ℕ → Json)
    → List Route
    → Request
    → Response
unfolding by_method segments_of
handle pathname decode stringify routes req =
    elim (pathname (or_text (codes "/") req.url)
      (codes "http://" ++ or_text (codes "localhost") req.host)) [
        | none ↦ Response.unanswered
        | some path ↦ by_method decode stringify routes req.method (segments_of path)
      ]
